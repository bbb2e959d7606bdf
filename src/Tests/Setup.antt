-- ===== src/Tests/Setup.antt =====
-- The configuration, the requests and the libraries of the tests: one tenant with a user, a service
-- principal and a client app, under the mode `strict`.
use mock_idp.Common.{String, true, false, Option, none, some, List, [], ◌∷◌, ◌++◌}
use mock_idp.Int.{pos}
use mock_idp.Dict.{Dict}
use mock_idp.Value.{str, int, null, Claims}
use mock_idp.Models.{UserRecord, ServicePrincipalRecord, ClientAppRecord}
use mock_idp.Config.{Config}
use mock_idp.Keys.{Key}
use mock_idp.Keys.Reach.{no_keys}
use mock_idp.World.{World}
use mock_idp.Tokens.Signing.{Codec}
use mock_idp.Tokens.Signing.Verification.{find_key}
use mock_idp.Providers.Common.{Clock}
use mock_idp.Handler.Context.{Env, TokenContext, Request, flat_context}

abbrev pub alice : UserRecord
alice = record {
  password = "wonder";
  upn = some "alice@corp";
  preferred_username = none;
  oid = "oid-1";
  tid = "tenant-1";
  token_version = "v2";
  token_lifetime_seconds = pos 3600;
  signing_alg = "RS256";
  realm_roles = "reader" ∷ [];
  tenant_realm_roles = "staff" ∷ [];
  provider = "entra_id";
  roles = "guest" ∷ [];
  groups = "g1" ∷ [];
  allowed_audiences = "api://spare" ∷ [];
  extra_claims = [];
}

abbrev pub robot : ServicePrincipalRecord
robot = record {
  client_id = some "robot-id";
  secret = "steel";
  label = none;
  token_version = "v1";
  token_lifetime_seconds = pos 600;
  signing_alg = "ES256";
  realm_roles = [];
  tenant_realm_roles = [];
  provider = "keycloak";
  roles = [];
  groups = [];
  tid = "tenant-1";
  allowed_audiences = [];
  extra_claims = [];
  override_any_claim = true;
  override_iss_too = false;
  canonical_id = "robot-id";
  name = "robot";
}

abbrev pub orders : ClientAppRecord
orders = record {
  app_id = some "app-1";
  label = none;
  roles = "buyer" ∷ "reader" ∷ [];
  grants = ("alice", "buyer" ∷ "reader" ∷ []) ∷ [];
}

abbrev pub demo_config : Config
demo_config = record {
  iss_base = "http://idp";
  users = ("alice", alice) ∷ [];
  service_principals = ("robot", robot) ∷ [];
  service_principals_raw = ("robot", robot) ∷ [];
  client_apps = ("api://orders", orders) ∷ [];
  issuer_modes = [];
  mode = "strict";
  admin_token = "";
  cors_origins = [];
  webhooks = record { url = "http://hook"; events = "token_issued" ∷ [] } ∷ [];
}

-- the claims of the tokens that are presented
abbrev pub demo_claims : Claims
demo_claims =
    ("sub", str "oid-1") ∷ ("exp", int (pos 5000)) ∷ ("azp", str "robot-id") ∷ ("secret", null) ∷ []

abbrev pub known_claims : Claims → Option Key → Option Claims
known_claims claims none = none
known_claims claims (some k) = some claims

-- A token is the id of its key, and a key set that has a key under that id reads the given claims.
abbrev pub codec_of : Claims → Codec
codec_of all_claims = record {
  encode = λ header claims key. key.kid;
  decode = λ token keys. known_claims all_claims (find_key token keys);
  as_pem = λ key. key.kid;
  as_dict = λ key. str key.kid;
  json_b64url = λ claims. "e30";
  hmac_b64url = λ key text. "c2ln";
}

abbrev pub demo_codec : Codec
demo_codec = codec_of demo_claims

abbrev pub demo_clock : Clock
demo_clock = record {
  checked = 1000;
  built = 1000;
  authenticated = 1000;
  corrupted = 1000;
  replied = 1000;
}

abbrev pub demo_env : Env
demo_env = record {
  cfg = demo_config;
  codec = demo_codec;
  clock = demo_clock;
  draw = 0;
  timestamp = "2026-01-01T00:00:00Z";
}

-- the backend that keeps every event
abbrev pub write_all : Claims → List Claims → Option (List Claims)
write_all event audit = some (audit ++ event ∷ [])

abbrev pub demo_context : TokenContext
demo_context = flat_context demo_env write_all

abbrev pub demo_world : World
demo_world = record { keys = no_keys; faults = []; audit = []; posts = []; slept = []; hits = [] }

abbrev pub alice_form : Dict String
alice_form =
    ("grant_type", "password")
    ∷ ("username", "alice")
    ∷ ("password", "wonder")
    ∷ ("scope", "api://orders/.default")
    ∷ []

abbrev pub alice_request : Request
alice_request = record { form = alice_form; headers = [] }

abbrev pub omit_request : Request
omit_request = record { form = alice_form; headers = ("X-Omit-Claims", "upn, exp") ∷ [] }

abbrev pub wrong_request : Request
wrong_request = record {
  form = ("grant_type", "password") ∷ ("username", "alice") ∷ ("password", "guess") ∷ [];
  headers = ("X-Test-Delay-Ms", "5") ∷ [];
}
