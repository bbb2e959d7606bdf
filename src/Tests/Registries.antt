-- ===== src/Tests/Registries.antt =====
-- The registry of organisations and its admin routes at concrete data.
use mock_idp.Common.{
  String, true, Option, none, some, ◌≡◌, ◌≢◌, refl, List, [], ◌∷◌, inl, ne_of_eq_false,
}
use mock_idp.Text.{◌<>◌}
use mock_idp.Dict.{lookup, insert}
use mock_idp.Value.{Claims, null}
use mock_idp.Result.{Error, ok, err, http}
use mock_idp.World.{bind}
use mock_idp.Handler.Context.{global_keys, KeyResolver}
use mock_idp.Hosted.Context.{HostedEnv, get_org}
use mock_idp.Store.Postgres.{new_store, reload_pg}
use mock_idp.Orgs.Registry.{
  OrgRow, Database, OrgEntry, Registry, fetch, registry_startup, registry_get, register, provision,
  deregister, load_all, load_org, org_entry,
}
use mock_idp.Orgs.Registry.Mirror.{started, registered, row_of, find_slug, registry_get-startup}
use mock_idp.Orgs.Registry.Remains.{register-deregister}
use mock_idp.Admin.Organisations.{
  AdminEnv, admin_create_org, admin_list_orgs, admin_delete_org, admin_push_config,
  require_hosted_admin,
}
use mock_idp.Admin.Organisations.Provisioned.{
  later_env, new_entry, hosted_org, admin_create_org-get_org,
}
use mock_idp.Admin.Organisations.Refused.{
  admin_orgs-forbidden, Refusal, admin_push_config-Refusal, admin_delete_org-removed,
}
use mock_idp.Tests.Setup.{demo_env, demo_codec, write_all}
use mock_idp.Tests.Databases.{demo_loads, snapshot_with, cfg_row}

-- a hash that is good enough to tell texts apart
abbrev mark : String → String
mark s = "#" <> s

abbrev demo_db : Database
demo_db = record {
  orgs = record { org_id = "acme"; slug = "acme"; tier = "pro"; api_key_hash = some "#old" } ∷ [];
  tables = ("acme", snapshot_with "v2") ∷ [];
  keys = [];
}

abbrev demo_registry : Registry
demo_registry = registry_startup demo_loads demo_db

abbrev demo_admin : AdminEnv
demo_admin = record {
  base = demo_env;
  hosted = true;
  loads = demo_loads;
  pushing = record { safe_load = λ text. ok null; build_store_from_dict = λ v store. ok store };
  sha256_hex = mark;
  plaintext = "fresh";
  first_token = "root";
}

abbrev registered_once : Registry
registered_once = (register demo_loads mark "fresh" "root" "beta" "pro" demo_registry).1

registry_get-startup_example :
    (row_of (registry_get "beta" registered_once) ≡ find_slug "beta" registered_once.db.orgs)
    × (row_of (registry_get "beta" (registry_startup demo_loads registered_once.db))
        ≡ row_of (registry_get "beta" registered_once))
registry_get-startup_example =
    registry_get-startup demo_loads mark "beta"
      (registered "fresh" "root" "beta" "pro" (started demo_db (refl, tt)))

abbrev again_row : OrgRow
again_row = record { org_id = "acme"; slug = "acme"; tier = "pro"; api_key_hash = some "#fresh" }

abbrev again_db : Database
again_db = record { orgs = again_row ∷ []; tables = demo_db.tables; keys = [] }

-- the organisation that is registered in the place of the removed one
abbrev second : OrgEntry
second = org_entry demo_loads (provision "acme" "root" again_db) again_row

has_cfg : (fetch demo_registry.db "acme").cfg_row ≡ some cfg_row
unfolding load_all load_org lookup
has_cfg = refl

registered_again :
    (register demo_loads mark "fresh" "root" "acme" "pro" (deregister "acme" demo_registry).1).0
    ≡ ok (second, "fresh")
unfolding register deregister load_all load_org provision
registered_again = refl

register-deregister_example :
    second.store
    ≡ reload_pg demo_loads
        (some (fetch demo_registry.db "acme"))
        (record (new_store "acme") { pool = true })
register-deregister_example =
    register-deregister demo_loads mark "fresh" "root" "acme" "pro" demo_registry cfg_row has_cfg
      registered_again

admin_orgs-forbidden_example :
    (admin_create_org demo_admin (some "guess") "beta" "pro" demo_registry
      ≡ (err (http 403 "invalid admin token"), demo_registry))
    × (admin_list_orgs demo_admin (some "guess") demo_registry
        ≡ (err (http 403 "invalid admin token"), demo_registry))
    × (admin_delete_org demo_admin (some "guess") "beta" demo_registry
        ≡ (err (http 403 "invalid admin token"), demo_registry))
    × (admin_push_config demo_admin (some "guess") "beta" "{}" demo_registry
        ≡ (err (http 403 "invalid admin token"), demo_registry))
admin_orgs-forbidden_example =
    admin_orgs-forbidden demo_admin (some "guess") "beta" "pro" "{}" demo_registry
      (inl (λ e. ne_of_eq_false "guess" "" refl (cc)))

admin_push_config-Refusal_example :
    (e : Error) × Refusal demo_admin (some "") "acme" demo_registry e
    × (admin_push_config demo_admin (some "") "acme" "{}" demo_registry ≡ (err e, demo_registry))
admin_push_config-Refusal_example =
    admin_push_config-Refusal demo_admin (some "") "acme" "{}" demo_registry

removed_ok : (admin_delete_org demo_admin (some "") "acme" demo_registry).0 ≡ ok tt
unfolding admin_delete_org require_hosted_admin deregister load_all load_org bind
removed_ok = refl

admin_delete_org-removed_example :
    (◌≢◌ {A = String} "acme" "sandbox")
    × (registry_get "beta" (admin_delete_org demo_admin (some "") "acme" demo_registry).1
        ≡ registry_get "beta" demo_registry)
admin_delete_org-removed_example =
    admin_delete_org-removed demo_admin (some "") "acme" "beta" demo_registry removed_ok

abbrev some_keys : OrgEntry → KeyResolver
some_keys entry = global_keys demo_codec

abbrev some_write : OrgEntry → Claims → List Claims → Option (List Claims)
some_write entry = write_all

abbrev demo_hosted : HostedEnv
demo_hosted = record { base = demo_env; orgs = []; sha256_hex = mark; ip = "10.0.0.1"; arrived = 0 }

created :
    (admin_create_org demo_admin (some "") "beta" "pro" demo_registry).0
    ≡ ok (record { slug = "beta"; tier = "pro"; api_key = "fresh" })
unfolding admin_create_org require_hosted_admin register load_all load_org lookup insert bind
created = refl

admin_create_org-get_org_example :
    let henv =
      later_env some_keys some_write "http://idp" demo_admin
        (some "")
        "beta"
        "pro"
        demo_registry
        demo_hosted in
    (get_org henv "beta" (some ("Bearer " <> "fresh"))
      ≡ ok (
          hosted_org some_keys some_write "http://idp"
            (new_entry demo_admin "beta" "pro" demo_registry)))
    × (get_org henv "beta" none ≡ err (http 401 "invalid_api_key"))
    × (registry_get "acme" (admin_create_org demo_admin (some "") "beta" "pro" demo_registry).1
        ≡ registry_get "acme" demo_registry)
admin_create_org-get_org_example =
    admin_create_org-get_org some_keys some_write "http://idp" demo_admin (some "") "beta" "pro"
      demo_registry demo_hosted "fresh" "acme" created (ne_of_eq_false "acme" "beta" refl)
