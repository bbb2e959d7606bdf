-- ===== src/Store/Running/Backends.antt =====
-- The two backends of the store as `IdentityStore`, and `create_store` of src/mock_idp/store/__init__.py.
use mock_idp.Common.{String, Bool, Option, none, some, [], if◌then◌else◌, ◌==◌, ◌||◌}
use mock_idp.Text.{lower, is_empty}
use mock_idp.Models.{AppConfig}
use mock_idp.Result.{Result, ok, err, uncaught}
use mock_idp.Store.Yaml.{YamlStore, reload}
use mock_idp.Store.Postgres.{PgStore, Loads, Snapshot, startup, reload_pg}
use mock_idp.Store.Postgres.Events.{EventTable, query_audit}
use mock_idp.Store.Running.{StoreView, IdentityStore}

abbrev pub yaml_view : YamlStore → StoreView
yaml_view s = record {
  mode = s.mode;
  issuer_modes = s.issuer_modes;
  admin_token = s.admin_token;
  cors_origins = s.cors_origins;
  webhooks = s.webhooks;
  users = s.users;
  service_principals = s.service_principals;
  service_principals_raw = s.service_principals_raw;
  client_apps = s.client_apps;
}

-- The file is read when the store is made; its startup does nothing, and its audit log is empty.
abbrev pub yaml_store : IdentityStore
yaml_store = record {
  State = YamlStore;
  Source = Option AppConfig;
  view = yaml_view;
  startup = λ source s. s;
  reload = reload;
  query_audit = λ limit cursor s. ok ([], none);
}

-- webhooks are not stored in the database
abbrev pub pg_view : PgStore → StoreView
pg_view s = record {
  mode = s.mode;
  issuer_modes = s.issuer_modes;
  admin_token = s.admin_token;
  cors_origins = s.cors_origins;
  webhooks = [];
  users = s.users;
  service_principals = s.service_principals;
  service_principals_raw = s.service_principals_raw;
  client_apps = s.client_apps;
}

-- The store, and the audit log in the database. `connected` says whether the pool gives a connection.
abbrev pub pg_store : Loads → Bool → IdentityStore
pg_store loads connected = record {
  State = PgStore × EventTable;
  Source = Option Snapshot;
  view = λ s. pg_view s.0;
  startup = λ source s. (startup loads source s.0, s.1);
  reload = λ source s. (reload_pg loads source s.0, s.1);
  query_audit = λ limit cursor s. query_audit loads s.0.pool connected s.0.org_id limit cursor s.1;
}

pub data Backend : Type 0 where
  yaml : Backend
  postgres : String → Backend

-- `create_store`; `installed` says whether the extra dependencies are there
unfoldable pub create_store : Bool → String → String → Result Backend
create_store installed backend dsn =
    if backend == "yaml" || backend == "file"
    then ok yaml
    else (if backend == "postgres"
        then (if is_empty dsn
            then err (uncaught "ValueError")
            else (if installed then ok (postgres dsn) else err (uncaught "ImportError")))
        else err (uncaught "ValueError"))

abbrev or_default : String → Option String → String
or_default d none = d
or_default d (some s) = s

-- the choice in src/mock_idp/config.py, from MOCK_IDP_BACKEND and MOCK_IDP_PG_DSN
unfoldable pub choose_backend : Bool → Option String → Option String → Result Backend
unfolding create_store lower
choose_backend installed backend dsn =
    if lower (or_default "yaml" backend) == "postgres"
    then create_store installed "postgres" (or_default "" dsn)
    else create_store installed "yaml" ""
