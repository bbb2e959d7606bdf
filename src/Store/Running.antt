-- ===== src/Store/Running.antt =====
-- The protocol IdentityStore of src/mock_idp/store/__init__.py, the module variables of
-- src/mock_idp/config.py over a store, and the start of the program in src/mock_idp/main.py.
pub mod Backends
pub mod Aliases
pub mod Sync
use mock_idp.Common.{
  ℕ, leb, ◌&&◌, String, Bool, true, false, not, Option, none, some, List, [], ◌∷◌, length,
  if◌then◌else◌,
}
use mock_idp.Text.{or_empty, truthy}
use mock_idp.Dict.{Dict}
use mock_idp.Models.{UserRecord, ServicePrincipalRecord, ClientAppRecord, WebhookConfig}
use mock_idp.Config.{Config}
use mock_idp.Result.{Result, ok, err, http, raise_if}
use mock_idp.World.{Stateful, ◌>>=◌, ◌>>◌, pure, lift}
use mock_idp.Handler.Grants.{is_text}
use mock_idp.Store.Postgres.Events.{Page}

-- the properties that every backend has
pub record StoreView : Type 0 where
  pub mode : String
  pub issuer_modes : Dict String
  pub admin_token : String
  pub cors_origins : List String
  pub webhooks : List WebhookConfig
  pub users : Dict UserRecord
  pub service_principals : Dict ServicePrincipalRecord
  pub service_principals_raw : Dict ServicePrincipalRecord
  pub client_apps : Dict ClientAppRecord

-- `IdentityStore`: `Source` is what a backend finds outside when it starts or reloads.
pub record IdentityStore : Type 1 where
  pub State : Type 0
  pub Source : Type 0
  pub view : State → StoreView
  pub startup : Source → State → State
  pub reload : Source → State → State
  pub query_audit : ℕ → ℕ → State → Result Page

-- the module variables that are bound to values; the others are the store's own dicts
pub record Scalars : Type 0 where
  pub mode : String
  pub admin_token : String
  pub cors_origins : List String
  pub webhooks : List WebhookConfig

-- `env_token` is the environment's MOCK_IDP_ADMIN_TOKEN
abbrev pub scalars_of : Option String → StoreView → Scalars
scalars_of env_token view = record {
  mode = view.mode;
  admin_token = if truthy env_token then or_empty env_token else view.admin_token;
  cors_origins = view.cors_origins;
  webhooks = view.webhooks;
}

-- what the rest of the program reads: the bound values, and the dicts as they are now
abbrev pub config_of : String → Scalars → StoreView → Config
config_of iss_base scalars view = record {
  iss_base = iss_base;
  users = view.users;
  service_principals = view.service_principals;
  service_principals_raw = view.service_principals_raw;
  client_apps = view.client_apps;
  issuer_modes = view.issuer_modes;
  mode = scalars.mode;
  admin_token = scalars.admin_token;
  cors_origins = scalars.cors_origins;
  webhooks = scalars.webhooks;
}

module _ (S : IdentityStore) where
  pub record Running : Type 0 where
    pub scalars : Scalars
    pub state : S.State

  -- the import of the module `config`, with the store that was just made
  unfoldable pub boot : Option String → S.State → Running
  boot env_token state = record { scalars = scalars_of env_token (S.view state); state = state }

  -- the start in `lifespan`: the store's alone
  unfoldable pub lifespan_start : S.Source → Running → Running
  lifespan_start source r = record r { state = S.startup source r.state }

  -- `reload_config`
  unfoldable pub reload_config : Option String → S.Source → Running → Running
  reload_config env_token source r =
      let state = S.reload source r.state in
      record { scalars = scalars_of env_token (S.view state); state = state }

  unfoldable pub config : String → Running → Config
  config iss_base r = config_of iss_base r.scalars (S.view r.state)

  -- the numbers of users, service principals and client apps
  abbrev counts : StoreView → ℕ × ℕ × ℕ
  counts view = (length view.users, length view.service_principals, length view.client_apps)

  abbrev pub require_token : Option String → Stateful Running (Unit {0})
  require_token x_admin_token r = (
    raise_if (not (is_text x_admin_token r.scalars.admin_token)) (http 403 "invalid admin token"),
    r,
  )

  -- `admin_reload`
  unfoldable pub admin_reload :
      Option String → Option String → S.Source → Stateful Running (ℕ × ℕ × ℕ)
  unfolding reload_config
  admin_reload env_token x_admin_token source = do
    require_token x_admin_token
    λ r. let r' = reload_config env_token source r in (ok (counts (S.view r'.state)), r')

  -- a query parameter with bounds
  abbrev pub within : Bool → Result (Unit {0})
  within b = raise_if (not b) (http 422 "")

  -- `admin_audit`; the framework checks the bounds of the page first
  unfoldable pub admin_audit : Option String → ℕ → ℕ → Stateful Running Page
  admin_audit x_admin_token limit cursor = do
    lift (within (leb 1 limit && leb limit 200))
    require_token x_admin_token
    λ r. (S.query_audit limit cursor r.state, r)
