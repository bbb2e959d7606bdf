-- ===== src/Orgs/Registry.antt =====
-- src/mock_idp/org_registry.py: `OrgRegistry`, over the tables of the database. The tables are kept by
-- organisation; of the deletion of an organisation they lose what the foreign keys of
-- src/alembic/versions say: its keys alone.
pub mod Mirror
pub mod Remains
use mock_idp.Common.{
  String, Bool, true, false, not, elem, ◌||◌, Option, none, some, List, [], ◌∷◌, ◌++◌, or_else,
  if◌then◌else◌, ◌==◌,
}
use mock_idp.Text.{◌<>◌}
use mock_idp.Dict.{Dict, lookup, insert, erase}
use mock_idp.Value.{Value, Claims}
use mock_idp.Result.{Result, ok, err, uncaught, raise_if, ◌>>=◌, ◌>>◌}
use mock_idp.Keys.{IssuerKeys}
use mock_idp.Handler.Context.{TokenContext, KeyResolver}
use mock_idp.Hosted.Context.{OrgContext}
use mock_idp.Store.Postgres.{PgStore, Loads, ConfigRow, Snapshot, Jsonb, text, new_store, reload_pg}
use mock_idp.Orgs.Keys.{KeyData}

-- a row of `orgs`
pub record OrgRow : Type 0 where
  pub org_id : String
  pub slug : String
  pub tier : String
  pub api_key_hash : Option String

-- `tables` has what the queries of a store find for an organisation, `keys` its rows of `org_jwks`.
pub record Database : Type 0 where
  pub orgs : List OrgRow
  pub tables : Dict Snapshot
  pub keys : Dict (Dict KeyData)

-- the dataclass `OrgContext`; of its key resolver it holds the cache
pub record OrgEntry : Type 0 where
  pub org_id : String
  pub slug : String
  pub tier : String
  pub api_key_hash : Option String
  pub store : PgStore
  pub cache : Dict IssuerKeys

-- `_orgs`, and the database behind the pool
pub record Registry : Type 0 where
  pub orgs : Dict OrgEntry
  pub db : Database

abbrev pub no_rows : Snapshot
no_rows = record { cfg_row = none; user_rows = []; sp_rows = []; app_rows = [] }

-- what the queries of the store find
abbrev pub fetch : Database → String → Snapshot
fetch db org_id = or_else (lookup org_id db.tables) no_rows

-- the entry that `_load_org` makes of a row
unfoldable pub org_entry : Loads → Database → OrgRow → OrgEntry
unfolding reload_pg lookup
org_entry loads db row = record {
  org_id = row.org_id;
  slug = row.slug;
  tier = row.tier;
  api_key_hash = row.api_key_hash;
  store =
      reload_pg loads (some (fetch db row.org_id)) (record (new_store row.org_id) { pool = true });
  cache = [];
}

-- `_load_org`
unfoldable pub load_org : Loads → OrgRow → Registry → OrgEntry × Registry
unfolding org_entry insert
load_org loads row registry =
    let entry = org_entry loads registry.db row in
    (entry, record registry { orgs = insert row.slug entry registry.orgs })

-- `_load_all`, over the rows that the query gives
unfoldable pub load_all : Loads → List OrgRow → Registry → Registry
unfolding load_org
load_all loads [] registry = registry
load_all loads (row ∷ rows) registry = load_all loads rows (load_org loads row registry).1

-- `startup`, with a pool that could be made
abbrev pub registry_startup : Loads → Database → Registry
registry_startup loads db = load_all loads db.orgs (record { orgs = []; db = db })

-- `get`
abbrev pub registry_get : String → Registry → Option OrgEntry
registry_get slug registry = lookup slug registry.orgs

-- whether the primary key or the unique slug of a row is taken
abbrev pub taken : OrgRow → List OrgRow → Bool
taken row [] = false
taken row (other ∷ rows) = (other.org_id == row.org_id || other.slug == row.slug) || taken row rows

abbrev pub first_config : String → ConfigRow
first_config admin_token = record {
  auth_mode = "lax";
  admin_token = admin_token;
  cors_allow_origins = some ("*" ∷ []);
  issuer_modes = text "{}";
}

-- INSERT INTO app_config … ON CONFLICT (org_id) DO NOTHING
abbrev pub or_config : ConfigRow → Option ConfigRow → Option ConfigRow
or_config row none = some row
or_config row (some old) = some old

unfoldable pub provision : String → String → Database → Database
unfolding lookup insert
provision org_id admin_token db =
    let found = fetch db org_id in
    record db {
      tables =
          insert org_id
            (record found { cfg_row = or_config (first_config admin_token) found.cfg_row })
            db.tables;
    }

-- `register`, with the two texts that `secrets` draws: the key, and the admin token
unfoldable pub register :
    Loads
    → (String → String)
    → String
    → String
    → String
    → String
    → Registry
    → Result (OrgEntry × String) × Registry
unfolding load_org provision
register loads sha256_hex plaintext admin_token slug tier registry =
    let row : OrgRow = record {
      org_id = slug;
      slug = slug;
      tier = tier;
      api_key_hash = some (sha256_hex plaintext);
    } in
    if taken row registry.db.orgs
    then (err (uncaught "UniqueViolationError"), registry)
    else (let db = record registry.db { orgs = registry.db.orgs ++ row ∷ [] } in
        let (entry, loaded) =
          load_org loads row (record registry { db = provision slug admin_token db }) in
        (ok (entry, plaintext), loaded))

-- DELETE FROM orgs WHERE slug = $1, and what it cascades to
abbrev pub without_slug : String → List OrgRow → List OrgRow
without_slug slug [] = []
without_slug slug (row ∷ rows) =
    if row.slug == slug then without_slug slug rows else row ∷ without_slug slug rows

abbrev pub has_slug : String → List OrgRow → Bool
has_slug slug [] = false
has_slug slug (row ∷ rows) = row.slug == slug || has_slug slug rows

-- the keys that remain after the organisations of the slug are gone
abbrev without_keys : String → List OrgRow → Dict (Dict KeyData) → Dict (Dict KeyData)
without_keys slug [] keys = keys
without_keys slug (row ∷ rows) keys =
    without_keys slug rows (if row.slug == slug then erase row.org_id keys else keys)

-- `deregister`: whether there was such an organisation
unfoldable pub deregister : String → Registry → Bool × Registry
unfolding erase
deregister slug registry =
    if has_slug slug registry.db.orgs
    then (
      true,
      record {
        orgs = erase slug registry.orgs;
        db = record registry.db {
          orgs = without_slug slug registry.db.orgs;
          keys = without_keys slug registry.db.orgs registry.db.keys;
        };
      },
    )
    else (false, registry)

-- the names that the module `config` binds
abbrev config_names : List String
config_names =
    "os" ∷ "Path" ∷ "ClientAppRecord" ∷ "ServicePrincipalRecord" ∷ "UserRecord" ∷ "WebhookConfig"
    ∷ "IdentityStore" ∷ "create_store" ∷ "CONFIG_PATH" ∷ "ISS_BASE" ∷ "_backend" ∷ "_dsn" ∷ "store"
    ∷ "USERS" ∷ "SERVICE_PRINCIPALS" ∷ "CLIENT_APPS" ∷ "ISSUER_MODES" ∷ "_service_principals_raw"
    ∷ "MODE" ∷ "ADMIN_TOKEN" ∷ "CORS_ORIGINS" ∷ "WEBHOOKS" ∷ "reload_config" ∷ []

-- `from .config import name`
abbrev import_config : String → Result (Unit {0})
import_config name = raise_if (not (elem name config_names)) (uncaught "ImportError")

-- What `push_config` calls outside: `yaml.safe_load`, and `_build_store_from_dict`, which is defined
-- nowhere.
pub record Pushing : Type 0 where
  pub safe_load : String → Result Value
  pub build_store_from_dict : Value → PgStore → Result PgStore

-- the entry of the organisation, or KeyError
abbrev entry_of : Option OrgEntry → Result OrgEntry
entry_of none = err (uncaught "KeyError")
entry_of (some ctx) = ok ctx

-- the store that is built from the text, and read again from the database
abbrev rebuilt : Loads → Pushing → String → Database → OrgEntry → Result OrgEntry
rebuilt loads pushing config_yaml db ctx = do
  loaded ← pushing.safe_load config_yaml
  store ← pushing.build_store_from_dict loaded ctx.store
  ok (record ctx { store = reload_pg loads (some (fetch db ctx.org_id)) store })

abbrev pushed : String → Registry → Result OrgEntry → Result (Unit {0}) × Registry
pushed slug registry (err e) = (err e, registry)
pushed slug registry (ok ctx) = (ok tt, record registry { orgs = insert slug ctx registry.orgs })

-- `push_config`
unfoldable pub push_config :
    Loads → Pushing → String → String → Registry → Result (Unit {0}) × Registry
unfolding insert reload_pg lookup
push_config loads pushing slug config_yaml registry = pushed slug registry (do
  import_config "_build_store_from_dict"
  ctx ← entry_of (registry_get slug registry)
  rebuilt loads pushing config_yaml registry.db ctx)

-- `OrgContext.make_token_context`; the key resolver and the backend's `write_token_event` are given
abbrev pub make_token_context :
    KeyResolver → (Claims → List Claims → Option (List Claims)) → String → OrgEntry → TokenContext
make_token_context keys write iss_base entry = record {
  iss_base = iss_base <> "/" <> entry.slug;
  users = entry.store.users;
  service_principals = entry.store.service_principals;
  clients = entry.store.client_apps;
  mode = entry.store.mode;
  issuer_modes = entry.store.issuer_modes;
  store = write;
  keys = keys;
}

-- The organisations as the hosted routes see them; the key resolver and the writer of events of each
-- are given.
unfoldable pub hosted_orgs :
    (OrgEntry → KeyResolver)
    → (OrgEntry → Claims → List Claims → Option (List Claims))
    → String
    → Dict OrgEntry
    → Dict OrgContext
hosted_orgs keys write iss_base [] = []
hosted_orgs keys write iss_base ((slug, entry) ∷ orgs) =
    (
      slug,
      record {
        slug = entry.slug;
        tier = entry.tier;
        api_key_hash = entry.api_key_hash;
        context = make_token_context (keys entry) (write entry) iss_base entry;
      },
    )
    ∷ hosted_orgs keys write iss_base orgs
