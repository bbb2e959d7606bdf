-- ===== src/Hosted/Context.antt =====
-- src/mock_idp/routers/hosted.py: how a request finds its organisation, and
-- src/mock_idp/org_registry.py: `OrgContext` and its API key.
use mock_idp.Common.{ℕ, String, Bool, true, false, Option, none, some, if◌then◌else◌, ◌==◌}
use mock_idp.Text.{strip_prefix, ◌<>◌}
use mock_idp.Dict.{Dict, lookup}
use mock_idp.Result.{Result, ok, err, http}
use mock_idp.World.{Action, ◌>>=◌, ◌>>◌, pure, lift}
use mock_idp.Handler.Context.{Env, TokenContext}
use mock_idp.Handler.Grants.{is_text}
use mock_idp.Hosted.Sandbox.{sandbox_rate_check}

-- `context` has the tables of the organisation's store and its key resolver.
pub record OrgContext : Type 0 where
  pub slug : String
  pub tier : String
  pub api_key_hash : Option String
  pub context : TokenContext

-- What a request to a hosted route finds besides `Env`: the organisations by their slugs, the
-- hexadecimal SHA-256 of a text, the address that the request comes from, and the time.
pub record HostedEnv : Type 0 where
  pub base : Env
  pub orgs : Dict OrgContext
  pub sha256_hex : String → String
  pub ip : String
  pub arrived : ℕ

-- the API key in an `Authorization` header
abbrev pub bearer_key : Option String → Option String
bearer_key none = none
bearer_key (some authorization) = strip_prefix "Bearer " authorization

abbrev pub has_hash : (String → String) → Option String → Option String → Bool
has_hash sha256_hex api_key_hash none = false
has_hash sha256_hex api_key_hash (some key) = is_text api_key_hash (sha256_hex key)

unfoldable pub verify_api_key : (String → String) → OrgContext → Option String → Bool
verify_api_key sha256_hex org authorization =
    if org.tier == "sandbox"
    then true
    else has_hash sha256_hex org.api_key_hash (bearer_key authorization)

abbrev pub check_org : HostedEnv → Option String → Option OrgContext → Result OrgContext
check_org henv authorization none = err (http 404 "org_not_found")
check_org henv authorization (some org) =
    if verify_api_key henv.sha256_hex org authorization
    then ok org
    else err (http 401 "invalid_api_key")

unfoldable pub get_org : HostedEnv → String → Option String → Result OrgContext
get_org henv slug authorization = check_org henv authorization (lookup slug henv.orgs)

abbrev pub full_issuer : String → String → String
full_issuer org issuer = org <> "/" <> issuer

-- the rate check, for a sandbox organisation only
abbrev pub limited : HostedEnv → OrgContext → Action (Unit {0})
limited henv org w =
    if org.tier == "sandbox"
    then (let (r, hits) = sandbox_rate_check henv.ip henv.arrived w.hits in
        (r, record w { hits = hits }))
    else (ok tt, w)

-- `_resolve`; the scoped issuer is `full_issuer` of the two names
unfoldable pub resolve_org : HostedEnv → String → Option String → Action OrgContext
resolve_org henv org authorization = do
  found ← lift (get_org henv org authorization)
  limited henv found
  pure found
