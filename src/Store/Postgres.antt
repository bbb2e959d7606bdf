-- ===== src/Store/Postgres.antt =====
-- src/mock_idp/store/pg_store.py: the store, and how the rows of the database become its tables. What
-- the four queries give is an argument, as is the reading of JSON text.
pub mod Rows
pub mod Reload
pub mod Events
pub use mock_idp.Store.Postgres.Rows.{
  absent, text, object, Jsonb, Loads, ConfigRow, UserRow, SpRow, AppRow, Snapshot, with_canonical,
  add_user, add_sp_row, add_sp_raw, add_app, tables_after, ◌>>=◌,
}
unfoldable pub use mock_idp.Store.Postgres.Rows.{
  parse_jsonb, user_record, sp_record, app_record, load_rows, build_tables,
}
use mock_idp.Common.{
  String, Bool, true, false, Option, none, some, List, [], ◌∷◌, or_else, if◌then◌else◌,
}
use mock_idp.Dict.{Dict, update}
use mock_idp.Result.{Result, ok, err, uncaught}
use mock_idp.Models.{UserRecord, ServicePrincipalRecord, ClientAppRecord}
use mock_idp.Store.Yaml.{Tables}

-- the fields of `PostgresIdentityStore`; of the connection pool it holds whether there is one
pub record PgStore : Type 0 where
  pub pool : Bool
  pub org_id : String
  pub mode : String
  pub admin_token : String
  pub cors_origins : List String
  pub issuer_modes : Dict String
  pub users : Dict UserRecord
  pub service_principals : Dict ServicePrincipalRecord
  pub service_principals_raw : Dict ServicePrincipalRecord
  pub client_apps : Dict ClientAppRecord

-- `__init__`, for the organisation that the environment names
abbrev pub new_store : String → PgStore
new_store org_id = record {
  pool = false;
  org_id = org_id;
  mode = "lax";
  admin_token = "change-me";
  cors_origins = "*" ∷ [];
  issuer_modes = [];
  users = [];
  service_principals = [];
  service_principals_raw = [];
  client_apps = [];
}

-- `list(origins or ["*"])`
abbrev pub origins_or_any : Option (List String) → List String
origins_or_any none = "*" ∷ []
origins_or_any (some []) = "*" ∷ []
origins_or_any (some (o ∷ os)) = o ∷ os

abbrev pub take_modes : Option (Dict String) → PgStore → Result (Unit {0}) × PgStore
take_modes none store = (err (uncaught "ValueError"), store)
take_modes (some modes) store = (ok tt, record store { issuer_modes = update [] modes })

-- the scalars, which are written before the rows of the identities are looked at
unfoldable pub take_config : Loads → Option ConfigRow → PgStore → Result (Unit {0}) × PgStore
unfolding parse_jsonb update
take_config loads none store = (ok tt, store)
take_config loads (some row) store =
    take_modes (parse_jsonb loads.modes row.issuer_modes) (record store {
      mode = row.auth_mode;
      admin_token = row.admin_token;
      cors_origins = origins_or_any row.cors_allow_origins;
    })

abbrev pub take_tables : Option Tables → PgStore → Result (Unit {0}) × PgStore
take_tables none store = (err (uncaught "ValueError"), store)
take_tables (some t) store = (
  ok tt,
  record store {
    users = update [] t.users;
    service_principals = update [] t.sps;
    service_principals_raw = update [] t.sps_raw;
    client_apps = update [] t.apps;
  },
)

abbrev pub then_tables : Option Tables → Result (Unit {0}) × PgStore → Result (Unit {0}) × PgStore
then_tables t (err e, store) = (err e, store)
then_tables t (ok _, store) = take_tables t store

-- `_fetch_and_apply`
unfoldable pub fetch_and_apply : Loads → Snapshot → PgStore → Result (Unit {0}) × PgStore
unfolding take_config build_tables update
fetch_and_apply loads snapshot store =
    then_tables (build_tables loads snapshot) (take_config loads snapshot.cfg_row store)

-- every exception of `_fetch_and_apply` is logged; of the queries it is `none`
abbrev pub try_apply : Loads → Option Snapshot → PgStore → PgStore
try_apply loads none store = store
try_apply loads (some snapshot) store = (fetch_and_apply loads snapshot store).1

-- `reload`
unfoldable pub reload_pg : Loads → Option Snapshot → PgStore → PgStore
unfolding fetch_and_apply
reload_pg loads fetched store = if store.pool then try_apply loads fetched store else store

-- `startup` with a pool that could be made, and `shutdown`
abbrev pub startup : Loads → Option Snapshot → PgStore → PgStore
startup loads fetched store = reload_pg loads fetched (record store { pool = true })

abbrev pub shutdown : PgStore → PgStore
shutdown store = record store { pool = false }
