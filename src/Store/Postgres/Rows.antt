-- ===== src/Store/Postgres/Rows.antt =====
-- src/mock_idp/store/pg_store.py: how the rows of the four queries become the tables of the store.
use mock_idp.Common.{String, Bool, Option, none, some, List, [], ◌∷◌, or_else}
use mock_idp.Int.{ℤ}
use mock_idp.Dict.{Dict, insert}
use mock_idp.Value.{Claims}
use mock_idp.Models.{UserRecord, ServicePrincipalRecord, ClientAppRecord, valid_version}
use mock_idp.Store.Yaml.{Tables, canonical, add_sp}

-- a value of a JSONB column: NULL, a text, or a dict
pub data Jsonb {ℓ} (A : Type ℓ) : Type ℓ where
  absent : Jsonb A
  text : String → Jsonb A
  object : A → Jsonb A

-- `json.loads` for the columns, with what pydantic asks of the value: `none` for an exception
pub record Loads : Type 0 where
  pub claims : String → Option Claims
  pub modes : String → Option (Dict String)
  pub grants : String → Option (Dict (List String))

-- `_parse_jsonb`
unfoldable pub parse_jsonb {ℓ} :
    {V : Type ℓ} → (String → Option (Dict V)) → Jsonb (Dict V) → Option (Dict V)
parse_jsonb loads absent = some []
parse_jsonb loads (text s) = loads s
parse_jsonb loads (object d) = some d

-- a row of `app_config`
pub record ConfigRow : Type 0 where
  pub auth_mode : String
  pub admin_token : String
  pub cors_allow_origins : Option (List String)
  pub issuer_modes : Jsonb (Dict String)

-- a row of `users`, joined with its tenant's provider
pub record UserRow : Type 0 where
  pub username : String
  pub password : String
  pub upn : Option String
  pub preferred_username : Option String
  pub oid : String
  pub tid : String
  pub token_version : String
  pub token_lifetime_seconds : ℤ
  pub roles : Option (List String)
  pub groups : Option (List String)
  pub allowed_audiences : Option (List String)
  pub extra_claims : Jsonb Claims
  pub provider : String

-- a row of `service_principals`, joined with its tenant's provider
pub record SpRow : Type 0 where
  pub name : String
  pub client_id : Option String
  pub secret : String
  pub label : Option String
  pub token_version : String
  pub token_lifetime_seconds : ℤ
  pub roles : Option (List String)
  pub groups : Option (List String)
  pub tid : String
  pub allowed_audiences : Option (List String)
  pub extra_claims : Jsonb Claims
  pub override_any_claim : Bool
  pub override_iss_too : Bool
  pub provider : String

-- a row of `client_apps`
pub record AppRow : Type 0 where
  pub audience : String
  pub app_id : Option String
  pub label : Option String
  pub roles : Option (List String)
  pub grants : Jsonb (Dict (List String))

-- what the four queries of `_fetch_and_apply` give
pub record Snapshot : Type 0 where
  pub cfg_row : Option ConfigRow
  pub user_rows : List UserRow
  pub sp_rows : List SpRow
  pub app_rows : List AppRow

infixl 5 ◌>>=◌
abbrev pub ◌>>=◌ {ℓ κ} : {A : Type ℓ} {B : Type κ} → Option A → (A → Option B) → Option B
none >>= f = none
some a >>= f = f a

-- the record of a user: what the row does not give has the model's default
unfoldable pub user_record : Loads → UserRow → Option UserRecord
unfolding parse_jsonb valid_version
user_record loads row = do
  extra ← parse_jsonb loads.claims row.extra_claims
  version ← valid_version row.token_version
  some (record {
    password = row.password;
    upn = row.upn;
    preferred_username = row.preferred_username;
    oid = row.oid;
    tid = row.tid;
    token_version = version;
    token_lifetime_seconds = row.token_lifetime_seconds;
    signing_alg = "RS256";
    realm_roles = [];
    tenant_realm_roles = [];
    provider = row.provider;
    roles = or_else row.roles [];
    groups = or_else row.groups [];
    allowed_audiences = or_else row.allowed_audiences [];
    extra_claims = extra;
  })

abbrev pub with_canonical : ServicePrincipalRecord → ServicePrincipalRecord
with_canonical sp = record sp { canonical_id = canonical sp.name sp }

unfoldable pub sp_record : Loads → SpRow → Option ServicePrincipalRecord
unfolding parse_jsonb valid_version
sp_record loads row = do
  extra ← parse_jsonb loads.claims row.extra_claims
  version ← valid_version row.token_version
  some (
      with_canonical (record {
        client_id = row.client_id;
        secret = row.secret;
        label = row.label;
        token_version = version;
        token_lifetime_seconds = row.token_lifetime_seconds;
        signing_alg = "RS256";
        realm_roles = [];
        tenant_realm_roles = [];
        provider = row.provider;
        roles = or_else row.roles [];
        groups = or_else row.groups [];
        tid = row.tid;
        allowed_audiences = or_else row.allowed_audiences [];
        extra_claims = extra;
        override_any_claim = row.override_any_claim;
        override_iss_too = row.override_iss_too;
        canonical_id = "";
        name = row.name;
      }))

unfoldable pub app_record : Loads → AppRow → Option ClientAppRecord
unfolding parse_jsonb
app_record loads row = do
  grants ← parse_jsonb loads.grants row.grants
  some (record {
    app_id = row.app_id;
    label = row.label;
    roles = or_else row.roles [];
    grants = grants;
  })

-- one round of each loop over the rows
abbrev pub add_user : Loads → UserRow → Dict UserRecord → Option (Dict UserRecord)
add_user loads row table = user_record loads row >>= λ user. some (insert row.username user table)

abbrev pub add_sp_row :
    Loads → SpRow → Dict ServicePrincipalRecord → Option (Dict ServicePrincipalRecord)
add_sp_row loads row table = sp_record loads row >>= λ sp. some (add_sp row.name sp table)

abbrev pub add_sp_raw :
    Loads → SpRow → Dict ServicePrincipalRecord → Option (Dict ServicePrincipalRecord)
add_sp_raw loads row table = sp_record loads row >>= λ sp. some (insert row.name sp table)

abbrev pub add_app : Loads → AppRow → Dict ClientAppRecord → Option (Dict ClientAppRecord)
add_app loads row table = app_record loads row >>= λ app. some (insert row.audience app table)

-- a loop over rows that fill a table, ended by the first exception
unfoldable pub load_rows {ℓ κ} :
    {R : Type ℓ} {V : Type κ} → (R → Dict V → Option (Dict V)) → Dict V → List R → Option (Dict V)
load_rows add table [] = some table
load_rows add table (row ∷ rows) = add row table >>= λ table'. load_rows add table' rows

-- the loops after that over the users
abbrev pub tables_after : Loads → Snapshot → Dict UserRecord → Option Tables
tables_after loads snapshot users = do
  sps ← load_rows (add_sp_row loads) [] snapshot.sp_rows
  sps_raw ← load_rows (add_sp_raw loads) [] snapshot.sp_rows
  apps ← load_rows (add_app loads) [] snapshot.app_rows
  some (record { users = users; sps = sps; sps_raw = sps_raw; apps = apps })

unfoldable pub build_tables : Loads → Snapshot → Option Tables
unfolding load_rows user_record sp_record app_record insert add_sp
build_tables loads snapshot = do
  users ← load_rows (add_user loads) [] snapshot.user_rows
  tables_after loads snapshot users
