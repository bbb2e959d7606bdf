-- ===== src/Store/Yaml/Lookups.antt =====
-- What the tables of the store give for a name.
use mock_idp.Common.{
  String, ◌≡◌, refl, sym, ap, ◌∙◌, [], ◌∷◌, ◌++◌, if◌then◌else◌, ◌==◌, Bool-cases, inl, inr,
}
use mock_idp.Dict.{Dict, lookup, insert, update, lookup_last, update-append, lookup-copied}
use mock_idp.Models.{UserRecord, ServicePrincipalRecord, ClientAppRecord, TenantRecord, AppConfig}
use mock_idp.Store.Yaml.{
  Tables, no_tables, inject_user, inject_sp, load_users, add_sp, load_sps, load_sps_raw,
  load_tenants, load_tenant, apply,
}

-- the users of a tenant under their names, as they are injected
abbrev tenant_users : String → TenantRecord → Dict UserRecord → Dict UserRecord
tenant_users tid tenant [] = []
tenant_users tid tenant ((username, user) ∷ rest) =
    (username, inject_user tid tenant user) ∷ tenant_users tid tenant rest

-- the names under which a service principal is registered: its key, and its client id if that differs
abbrev pub sp_names : String → ServicePrincipalRecord → Dict ServicePrincipalRecord
sp_names key sp =
    if sp.canonical_id == key then (key, sp) ∷ [] else (key, sp) ∷ (sp.canonical_id, sp) ∷ []

abbrev tenant_sps :
    String → TenantRecord → Dict ServicePrincipalRecord → Dict ServicePrincipalRecord
tenant_sps tid tenant [] = []
tenant_sps tid tenant ((key, sp) ∷ rest) =
    sp_names key (inject_sp tid tenant key sp) ++ tenant_sps tid tenant rest

abbrev tenant_raw :
    String → TenantRecord → Dict ServicePrincipalRecord → Dict ServicePrincipalRecord
tenant_raw tid tenant [] = []
tenant_raw tid tenant ((key, sp) ∷ rest) =
    (key, inject_sp tid tenant key sp) ∷ tenant_raw tid tenant rest

-- what is listed in all tenants, in the order of the file
abbrev pub all_users : Dict TenantRecord → Dict UserRecord
all_users [] = []
all_users ((tid, tenant) ∷ rest) = tenant_users tid tenant tenant.users ++ all_users rest

abbrev pub all_sps : Dict TenantRecord → Dict ServicePrincipalRecord
all_sps [] = []
all_sps ((tid, tenant) ∷ rest) = tenant_sps tid tenant tenant.service_principals ++ all_sps rest

abbrev pub all_raw : Dict TenantRecord → Dict ServicePrincipalRecord
all_raw [] = []
all_raw ((tid, tenant) ∷ rest) = tenant_raw tid tenant tenant.service_principals ++ all_raw rest

abbrev pub all_apps : Dict TenantRecord → Dict ClientAppRecord
all_apps [] = []
all_apps ((tid, tenant) ∷ rest) = tenant.clients ++ all_apps rest

load_users-update :
    (tid : String) (tenant : TenantRecord) (table users : Dict UserRecord)
    → load_users tid tenant table users ≡ update table (tenant_users tid tenant users)
unfolding load_users update
load_users-update tid tenant table [] = refl
load_users-update tid tenant table ((k, u) ∷ rest) =
    load_users-update tid tenant (insert k (inject_user tid tenant u) table) rest

load_sps_raw-update :
    (tid : String) (tenant : TenantRecord) (table sps : Dict ServicePrincipalRecord)
    → load_sps_raw tid tenant table sps ≡ update table (tenant_raw tid tenant sps)
unfolding load_sps_raw update
load_sps_raw-update tid tenant table [] = refl
load_sps_raw-update tid tenant table ((k, u) ∷ rest) =
    load_sps_raw-update tid tenant (insert k (inject_sp tid tenant k u) table) rest

pub add_sp-update :
    (key : String) (sp : ServicePrincipalRecord) (table : Dict ServicePrincipalRecord)
    → add_sp key sp table ≡ update table (sp_names key sp)
unfolding add_sp update
add_sp-update key sp table = elim (Bool-cases (sp.canonical_id == key)) [
  | inl same ↦ rw same refl
  | inr other ↦ rw other refl
]

load_sps-update :
    (tid : String) (tenant : TenantRecord) (table sps : Dict ServicePrincipalRecord)
    → load_sps tid tenant table sps ≡ update table (tenant_sps tid tenant sps)
unfolding load_sps update
load_sps-update tid tenant table [] = refl
load_sps-update tid tenant table ((k, sp) ∷ rest) =
    let one = inject_sp tid tenant k sp in
    load_sps-update tid tenant (add_sp k one table) rest
    ∙ ap (λ t. update t (tenant_sps tid tenant rest)) (add_sp-update k one table)
    ∙ sym (update-append table (sp_names k one) (tenant_sps tid tenant rest))

-- the tables of all tenants, over the tables so far
load_tenants-update :
    (t : Tables) (tenants : Dict TenantRecord)
    → let r = load_tenants t tenants in
      (r.users ≡ update t.users (all_users tenants))
      × (r.sps ≡ update t.sps (all_sps tenants))
      × (r.sps_raw ≡ update t.sps_raw (all_raw tenants))
      × (r.apps ≡ update t.apps (all_apps tenants))
unfolding load_tenants update
load_tenants-update t [] = (refl, refl, refl, refl)
load_tenants-update t ((tid, tenant) ∷ rest) =
    let (users, sps, raw, apps) = load_tenants-update (load_tenant t tid tenant) rest in
    (
      users
          ∙ ap (λ d. update d (all_users rest)) (load_users-update tid tenant t.users tenant.users)
          ∙ sym (update-append t.users (tenant_users tid tenant tenant.users) (all_users rest)),
      sps
          ∙ ap (λ d. update d (all_sps rest))
              (load_sps-update tid tenant t.sps tenant.service_principals)
          ∙ sym (
              update-append t.sps (tenant_sps tid tenant tenant.service_principals) (all_sps rest)),
      raw
          ∙ ap (λ d. update d (all_raw rest))
              (load_sps_raw-update tid tenant t.sps_raw tenant.service_principals)
          ∙ sym (
              update-append t.sps_raw (tenant_raw tid tenant tenant.service_principals)
                (all_raw rest)),
      apps ∙ sym (update-append t.apps tenant.clients (all_apps rest)),
    )

-- After a configuration is applied, a name gives the entry that is listed last for it in the order of
-- the tenants: for users under their user name, for service principals under their key and their
-- client id, in the raw table under their key alone, and for client apps under their key. A user and a
-- service principal carry what the loader takes from their tenant.
pub lookup-apply :
    (cfg : AppConfig) (k : String)
    → let store = apply cfg in
      (lookup k store.users ≡ lookup_last k (all_users cfg.tenants))
      × (lookup k store.service_principals ≡ lookup_last k (all_sps cfg.tenants))
      × (lookup k store.service_principals_raw ≡ lookup_last k (all_raw cfg.tenants))
      × (lookup k store.client_apps ≡ lookup_last k (all_apps cfg.tenants))
unfolding apply
lookup-apply cfg k =
    let (users, sps, raw, apps) = load_tenants-update no_tables cfg.tenants in
    (
      ap (λ d. lookup k (update [] d)) users ∙ lookup-copied k (all_users cfg.tenants),
      ap (λ d. lookup k (update [] d)) sps ∙ lookup-copied k (all_sps cfg.tenants),
      ap (λ d. lookup k (update [] d)) raw ∙ lookup-copied k (all_raw cfg.tenants),
      ap (λ d. lookup k (update [] d)) apps ∙ lookup-copied k (all_apps cfg.tenants),
    )
