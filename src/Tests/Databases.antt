-- ===== src/Tests/Databases.antt =====
-- The rows of the PostgreSQL store at concrete data.
use mock_idp.Common.{String, true, false, none, some, ◌≡◌, refl, [], ◌∷◌}
use mock_idp.Int.{pos}
use mock_idp.Dict.{Dict, lookup, update, lookup_last}
use mock_idp.Models.{UserRecord, ServicePrincipalRecord, ClientAppRecord, valid_version}
use mock_idp.Store.Postgres.{
  PgStore, Loads, ConfigRow, UserRow, SpRow, AppRow, Snapshot, absent, text, object, new_store,
  reload_pg, parse_jsonb, user_record, sp_record, app_record,
}
use mock_idp.Store.Postgres.Reload.{Listed, lookup-reload_pg, reload_pg-bad_user}

-- JSON text is `{}`, or cannot be read
abbrev pub demo_loads : Loads
demo_loads = record { claims = λ s. some []; modes = λ s. some []; grants = λ s. some [] }

abbrev pub cfg_row : ConfigRow
cfg_row = record {
  auth_mode = "strict";
  admin_token = "s3cret";
  cors_allow_origins = some [];
  issuer_modes = object (("corp", "lax") ∷ []);
}

abbrev bob_row : String → UserRow
bob_row version = record {
  username = "bob";
  password = "builder";
  upn = none;
  preferred_username = none;
  oid = "oid-2";
  tid = "tenant-1";
  token_version = version;
  token_lifetime_seconds = pos 60;
  roles = none;
  groups = some [];
  allowed_audiences = none;
  extra_claims = text "{}";
  provider = "okta";
}

abbrev welder_row : SpRow
welder_row = record {
  name = "welder";
  client_id = some "welder-id";
  secret = "flame";
  label = none;
  token_version = "v1";
  token_lifetime_seconds = pos 60;
  roles = none;
  groups = none;
  tid = "tenant-1";
  allowed_audiences = none;
  extra_claims = absent;
  override_any_claim = false;
  override_iss_too = false;
  provider = "okta";
}

abbrev site_row : AppRow
site_row = record {
  audience = "api://site";
  app_id = none;
  label = none;
  roles = some ("mason" ∷ []);
  grants = absent;
}

abbrev pub snapshot_with : String → Snapshot
snapshot_with version = record {
  cfg_row = some cfg_row;
  user_rows = bob_row version ∷ [];
  sp_rows = welder_row ∷ [];
  app_rows = site_row ∷ [];
}

-- a store with its connection pool
abbrev pooled_store : PgStore
pooled_store = record (new_store "default") { pool = true }

abbrev modes_of_row : Dict String
modes_of_row = ("corp", "lax") ∷ []

abbrev pub bob : UserRecord
bob = record {
  password = "builder";
  upn = none;
  preferred_username = none;
  oid = "oid-2";
  tid = "tenant-1";
  token_version = "v2";
  token_lifetime_seconds = pos 60;
  signing_alg = "RS256";
  realm_roles = [];
  tenant_realm_roles = [];
  provider = "okta";
  roles = [];
  groups = [];
  allowed_audiences = [];
  extra_claims = [];
}

abbrev welder : ServicePrincipalRecord
welder = record {
  client_id = some "welder-id";
  secret = "flame";
  label = none;
  token_version = "v1";
  token_lifetime_seconds = pos 60;
  signing_alg = "RS256";
  realm_roles = [];
  tenant_realm_roles = [];
  provider = "okta";
  roles = [];
  groups = [];
  tid = "tenant-1";
  allowed_audiences = [];
  extra_claims = [];
  override_any_claim = false;
  override_iss_too = false;
  canonical_id = "welder-id";
  name = "welder";
}

abbrev site : ClientAppRecord
site = record { app_id = none; label = none; roles = "mason" ∷ []; grants = [] }

abbrev listed_sps : Dict ServicePrincipalRecord
listed_sps = ("welder", welder) ∷ ("welder-id", welder) ∷ []

snapshot-Listed :
    Listed demo_loads
      (snapshot_with "v2")
      (("bob", bob) ∷ [])
      listed_sps
      (("welder", welder) ∷ [])
      (("api://site", site) ∷ [])
unfolding parse_jsonb user_record sp_record app_record valid_version
snapshot-Listed = record {
  config = (modes_of_row, refl);
  user_rows = refl;
  sp_rows = refl;
  raw_rows = refl;
  app_rows = refl;
}

lookup-reload_pg_example :
    let r = reload_pg demo_loads (some (snapshot_with "v2")) pooled_store in
    (lookup "welder-id" r.users ≡ lookup_last "welder-id" (("bob", bob) ∷ []))
    × (lookup "welder-id" r.service_principals ≡ lookup_last "welder-id" listed_sps)
    × (lookup "welder-id" r.service_principals_raw
        ≡ lookup_last "welder-id" (("welder", welder) ∷ []))
    × (lookup "welder-id" r.client_apps ≡ lookup_last "welder-id" (("api://site", site) ∷ []))
lookup-reload_pg_example =
    lookup-reload_pg demo_loads (snapshot_with "v2") pooled_store "welder-id" refl snapshot-Listed

modes_read : parse_jsonb demo_loads.modes cfg_row.issuer_modes ≡ some modes_of_row
unfolding parse_jsonb
modes_read = refl

bad_version : valid_version "v3" ≡ none
unfolding valid_version
bad_version = refl

reload_pg-bad_user_example :
    (reload_pg demo_loads none pooled_store ≡ pooled_store)
    × (reload_pg demo_loads (some (snapshot_with "v3")) pooled_store ≡ record pooled_store {
      mode = "strict";
      admin_token = "s3cret";
      cors_origins = "*" ∷ [];
      issuer_modes = update [] modes_of_row;
    })
reload_pg-bad_user_example =
    reload_pg-bad_user demo_loads (snapshot_with "v3") pooled_store cfg_row [] (bob_row "v3") []
      refl refl modes_read refl bad_version
