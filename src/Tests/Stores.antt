-- ===== src/Tests/Stores.antt =====
-- The keys and the tables of the store at concrete inputs.
use mock_idp.Common.{false, none, some, ◌≡◌, [], ◌∷◌, elem}
use mock_idp.Dict.{lookup, lookup_last}
use mock_idp.Models.{AppConfig}
use mock_idp.Keys.{KeyStore, get, jwks_keys, rotate_issuer, alt_key_for_alg}
use mock_idp.Keys.Kids.{kids}
use mock_idp.Keys.Reach.{no_keys, Reach, start, next, use_keys, turn, alt_key-never_published}
use mock_idp.Store.Running.Aliases.{import_module, reload_all, read_config}
use mock_idp.Store.Running.Aliases.Live.{Shows, reload_all-Shows}
use mock_idp.Store.Yaml.{apply}
use mock_idp.Store.Yaml.Lookups.{all_users, all_sps, all_raw, all_apps, lookup-apply}
use mock_idp.Tests.Setup.{alice, robot, orders}

-- the store after a request and a rotation
abbrev turned : KeyStore
turned = (rotate_issuer "corp" (get "corp" no_keys).1).1

turned-Reach : Reach turned
turned-Reach = next (next start (use_keys "corp" no_keys)) (turn "corp" (get "corp" no_keys).1)

alt_key-never_published_example :
    elem
      (alt_key_for_alg (get "corp" turned).0 "ES256").kid
      (kids (jwks_keys (get "corp" turned).0))
    ≡ false
alt_key-never_published_example = alt_key-never_published "corp" "ES256" turned-Reach

-- two tenants that list the same user
abbrev two_tenants : AppConfig
two_tenants = record {
  auth_mode = "open";
  cors_allow_origins = [];
  admin_token = "";
  issuer_modes = [];
  webhooks = [];
  tenants =
      (
        "t1",
        record {
          provider = "okta";
          realm_roles = [];
          users = ("alice", alice) ∷ [];
          service_principals = ("robot", robot) ∷ [];
          clients = ("api://orders", orders) ∷ [];
        },
      )
      ∷ (
        "t2",
        record {
          provider = "cognito";
          realm_roles = "staff" ∷ [];
          users = ("alice", alice) ∷ [];
          service_principals = [];
          clients = [];
        },
      )
      ∷ [];
}

lookup-apply_example :
    (lookup "robot-id" (apply two_tenants).users
      ≡ lookup_last "robot-id" (all_users two_tenants.tenants))
    × (lookup "robot-id" (apply two_tenants).service_principals
        ≡ lookup_last "robot-id" (all_sps two_tenants.tenants))
    × (lookup "robot-id" (apply two_tenants).service_principals_raw
        ≡ lookup_last "robot-id" (all_raw two_tenants.tenants))
    × (lookup "robot-id" (apply two_tenants).client_apps
        ≡ lookup_last "robot-id" (all_apps two_tenants.tenants))
lookup-apply_example = lookup-apply two_tenants "robot-id"

reload_all-Shows_example : Shows (some "t0p") two_tenants (
    read_config "http://idp" (
      reload_all
        (some "t0p")
        (none ∷ some two_tenants ∷ none ∷ [])
        (import_module (some "t0p") (record two_tenants { tenants = [] }))))
reload_all-Shows_example =
    reload_all-Shows (some "t0p") "http://idp" (record two_tenants { tenants = [] })
      (none ∷ some two_tenants ∷ none ∷ [])
