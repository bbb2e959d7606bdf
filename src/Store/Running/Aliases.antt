-- ===== src/Store/Running/Aliases.antt =====
-- src/mock_idp/config.py over src/mock_idp/store/yaml_store.py, with the dicts as objects that both
-- refer to: the module binds the store's dicts once, at its import, and the store changes them in
-- place.
pub mod Live
use mock_idp.Common.{ℕ, ◌+◌, leb, ◌&&◌, String, Option, none, some, List, [], ◌∷◌, if◌then◌else◌}
use mock_idp.Text.{truthy, or_empty}
use mock_idp.Dict.{Dict, update}
use mock_idp.Models.{UserRecord, ServicePrincipalRecord, ClientAppRecord, AppConfig}
use mock_idp.Config.{Config}
use mock_idp.Store.Yaml.{Tables, no_tables, load_tenants}
use mock_idp.Store.Running.{Scalars}

-- the dict objects by their addresses, for each type of value
pub record Objects : Type 0 where
  pub modes : ℕ → Dict String
  pub users : ℕ → Dict UserRecord
  pub sps : ℕ → Dict ServicePrincipalRecord
  pub apps : ℕ → Dict ClientAppRecord

-- five references to dicts
pub record Refs : Type 0 where
  pub issuer_modes : ℕ
  pub users : ℕ
  pub service_principals : ℕ
  pub service_principals_raw : ℕ
  pub client_apps : ℕ

-- the object at an address has new contents
abbrev pub put {ℓ} : {V : Type ℓ} → ℕ → Dict V → (ℕ → Dict V) → ℕ → Dict V
put address d objects p = if leb address p && leb p address then d else objects p

-- the objects, what the fields of the store are, and what the variables of the module are
pub record Program : Type 0 where
  pub objects : Objects
  pub fields : Refs
  pub attributes : Scalars
  pub variables : Refs
  pub bound : Scalars

-- `clear` and `update` of the five dicts of the store
abbrev pub fill : AppConfig → Tables → Refs → Objects → Objects
fill cfg t refs objects = record objects {
  modes = put refs.issuer_modes (update [] cfg.issuer_modes) objects.modes;
  users = put refs.users (update [] t.users) objects.users;
  sps =
      put refs.service_principals_raw (update [] t.sps_raw)
        (put refs.service_principals (update [] t.sps) objects.sps);
  apps = put refs.client_apps (update [] t.apps) objects.apps;
}

-- `_apply`: the new tables are local, the dicts of the store are changed in place
unfoldable pub apply_in_place : AppConfig → Program → Program
unfolding load_tenants update
apply_in_place cfg p = record p {
  objects = fill cfg (load_tenants no_tables cfg.tenants) p.fields p.objects;
  attributes = record {
    mode = cfg.auth_mode;
    admin_token = cfg.admin_token;
    cors_origins = cfg.cors_allow_origins;
    webhooks = cfg.webhooks;
  };
}

-- the scalar variables, of the store's attributes and the environment's MOCK_IDP_ADMIN_TOKEN
abbrev pub bind_scalars : Option String → Program → Program
bind_scalars env_token p = record p {
  bound = record p.attributes {
    admin_token = if truthy env_token then or_empty env_token else p.attributes.admin_token;
  };
}

-- five dicts from the address `n` on
abbrev pub new_refs : ℕ → Refs
new_refs n = record {
  issuer_modes = n;
  users = n + 1;
  service_principals = n + 2;
  service_principals_raw = n + 3;
  client_apps = n + 4;
}

-- the fields before the first configuration is applied
abbrev pub first_scalars : Scalars
first_scalars = record {
  mode = "lax";
  admin_token = "change-me";
  cors_origins = "*" ∷ [];
  webhooks = [];
}

-- `__init__` of the store, and the import of the module, which binds its variables
unfoldable pub import_module : Option String → AppConfig → Program
unfolding apply_in_place
import_module env_token cfg =
    let made = apply_in_place cfg (record {
      objects = record { modes = λ p. []; users = λ p. []; sps = λ p. []; apps = λ p. [] };
      fields = new_refs 0;
      attributes = first_scalars;
      variables = new_refs 0;
      bound = first_scalars;
    }) in
    bind_scalars env_token (record made { variables = made.fields })

abbrev pub reload_store : Option AppConfig → Program → Program
reload_store none p = p
reload_store (some cfg) p = apply_in_place cfg p

-- `reload_config`; `none` stands for a file whose configuration is invalid
unfoldable pub reload_module : Option String → Option AppConfig → Program → Program
unfolding apply_in_place
reload_module env_token cfg p = bind_scalars env_token (reload_store cfg p)

-- the reloads in their order
unfoldable pub reload_all : Option String → List (Option AppConfig) → Program → Program
unfolding reload_module
reload_all env_token [] p = p
reload_all env_token (cfg ∷ cfgs) p = reload_all env_token cfgs (reload_module env_token cfg p)

-- what the rest of the program reads through the variables of the module
unfoldable pub read_config : String → Program → Config
read_config iss_base p = record {
  iss_base = iss_base;
  users = p.objects.users p.variables.users;
  service_principals = p.objects.sps p.variables.service_principals;
  service_principals_raw = p.objects.sps p.variables.service_principals_raw;
  client_apps = p.objects.apps p.variables.client_apps;
  issuer_modes = p.objects.modes p.variables.issuer_modes;
  mode = p.bound.mode;
  admin_token = p.bound.admin_token;
  cors_origins = p.bound.cors_origins;
  webhooks = p.bound.webhooks;
}
