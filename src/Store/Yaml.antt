-- ===== src/Store/Yaml.antt =====
-- src/mock_idp/store/yaml_store.py: how a validated configuration becomes the tables of the store. The
-- validated configuration is an argument, or `none` for an error of the validation.
pub mod Lookups
pub mod Secrets
use mock_idp.Common.{String, Bool, Option, none, some, List, [], ◌∷◌, if◌then◌else◌, ◌==◌, not}
use mock_idp.Text.{or_empty, truthy}
use mock_idp.Dict.{Dict, insert, update}
use mock_idp.Models.{
  UserRecord, ServicePrincipalRecord, ClientAppRecord, TenantRecord, WebhookConfig, AppConfig,
}

-- the fields of `YamlIdentityStore`
pub record YamlStore : Type 0 where
  pub mode : String
  pub admin_token : String
  pub cors_origins : List String
  pub webhooks : List WebhookConfig
  pub issuer_modes : Dict String
  pub users : Dict UserRecord
  pub service_principals : Dict ServicePrincipalRecord
  pub service_principals_raw : Dict ServicePrincipalRecord
  pub client_apps : Dict ClientAppRecord

-- the tables that `_apply` builds
pub record Tables : Type 0 where
  pub users : Dict UserRecord
  pub sps : Dict ServicePrincipalRecord
  pub sps_raw : Dict ServicePrincipalRecord
  pub apps : Dict ClientAppRecord

abbrev pub no_tables : Tables
no_tables = record { users = []; sps = []; sps_raw = []; apps = [] }

-- what the loader injects into a user
abbrev pub inject_user : String → TenantRecord → UserRecord → UserRecord
inject_user tid tenant user = record user {
  tid = tid;
  tenant_realm_roles = tenant.realm_roles;
  provider = tenant.provider;
}

-- `sp.client_id or key`
abbrev pub canonical : String → ServicePrincipalRecord → String
canonical key sp = if truthy sp.client_id then or_empty sp.client_id else key

-- what the loader injects into a service principal
abbrev pub inject_sp :
    String → TenantRecord → String → ServicePrincipalRecord → ServicePrincipalRecord
inject_sp tid tenant key sp = record sp {
  tid = tid;
  name = key;
  tenant_realm_roles = tenant.realm_roles;
  provider = tenant.provider;
  canonical_id = canonical key sp;
}

unfoldable pub load_users :
    String → TenantRecord → Dict UserRecord → Dict UserRecord → Dict UserRecord
unfolding insert
load_users tid tenant table [] = table
load_users tid tenant table ((username, user) ∷ rest) =
    load_users tid tenant (insert username (inject_user tid tenant user) table) rest

-- one service principal, under its key and, if that differs, under its canonical id
unfoldable pub add_sp :
    String → ServicePrincipalRecord → Dict ServicePrincipalRecord → Dict ServicePrincipalRecord
unfolding insert
add_sp key sp table =
    let table' = insert key sp table in
    if sp.canonical_id == key then table' else insert sp.canonical_id sp table'

unfoldable pub load_sps :
    String
    → TenantRecord
    → Dict ServicePrincipalRecord
    → Dict ServicePrincipalRecord
    → Dict ServicePrincipalRecord
unfolding add_sp
load_sps tid tenant table [] = table
load_sps tid tenant table ((key, sp) ∷ rest) =
    load_sps tid tenant (add_sp key (inject_sp tid tenant key sp) table) rest

unfoldable pub load_sps_raw :
    String
    → TenantRecord
    → Dict ServicePrincipalRecord
    → Dict ServicePrincipalRecord
    → Dict ServicePrincipalRecord
unfolding insert
load_sps_raw tid tenant table [] = table
load_sps_raw tid tenant table ((key, sp) ∷ rest) =
    load_sps_raw tid tenant (insert key (inject_sp tid tenant key sp) table) rest

-- one round of the loop over the tenants
abbrev load_tenant : Tables → String → TenantRecord → Tables
load_tenant t tid tenant = record {
  users = load_users tid tenant t.users tenant.users;
  sps = load_sps tid tenant t.sps tenant.service_principals;
  sps_raw = load_sps_raw tid tenant t.sps_raw tenant.service_principals;
  apps = update t.apps tenant.clients;
}

unfoldable pub load_tenants : Tables → Dict TenantRecord → Tables
unfolding load_users load_sps load_sps_raw update
load_tenants t [] = t
load_tenants t ((tid, tenant) ∷ rest) = load_tenants (load_tenant t tid tenant) rest

-- `_apply`: the tables are cleared and filled anew
unfoldable pub apply : AppConfig → YamlStore
unfolding load_tenants update
apply cfg =
    let t = load_tenants no_tables cfg.tenants in
    record {
      mode = cfg.auth_mode;
      admin_token = cfg.admin_token;
      cors_origins = cfg.cors_allow_origins;
      webhooks = cfg.webhooks;
      issuer_modes = update [] cfg.issuer_modes;
      users = update [] t.users;
      service_principals = update [] t.sps;
      service_principals_raw = update [] t.sps_raw;
      client_apps = update [] t.apps;
    }

-- `reload`: a configuration that fails is logged, and the store is kept
unfoldable pub reload : Option AppConfig → YamlStore → YamlStore
unfolding apply
reload none store = store
reload (some cfg) store = apply cfg
