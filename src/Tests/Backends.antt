-- ===== src/Tests/Backends.antt =====
-- The backends, the secrets of a configuration and the debug routes at concrete data.
use mock_idp.Common.{true, none, some, ◌≡◌, refl, [], ◌∷◌, ne_of_eq_false}
use mock_idp.Dict.{lookup}
use mock_idp.Value.{Value, Fields, str, dict, field, end}
use mock_idp.Result.{ok}
use mock_idp.Store.Yaml.Secrets.{Surroundings, resolve_secret, resolve_secrets, get_value}
use mock_idp.Store.Yaml.Secrets.Resolved.{IsResolved, resolve_secrets-IsResolved}
use mock_idp.Store.Postgres.{new_store}
use mock_idp.Store.Postgres.Events.Written.{empty_log}
use mock_idp.Store.Running.{boot, lifespan_start, reload_config, config}
use mock_idp.Store.Running.Backends.{pg_store}
use mock_idp.Store.Running.Sync.{pg_store-stale}
use mock_idp.Debug.{debug_identities, debug_config}
use mock_idp.Debug.Hidden.{with_passwords, with_secrets, debug_identities-hides}
use mock_idp.Keys.Reach.{no_keys}
use mock_idp.Tests.Setup.{demo_config}
use mock_idp.Tests.Databases.{cfg_row, demo_loads, snapshot_with}

pg_store-stale_example :
    let S = pg_store demo_loads true in
    let r =
      lifespan_start S (some (snapshot_with "v2")) (boot S none (new_store "default", empty_log)) in
    let r' = reload_config S none (some (snapshot_with "v2")) r in
    ((config S "http://idp" r).mode ≡ "lax")
    × ((config S "http://idp" r).admin_token ≡ "change-me")
    × ((config S "http://idp" r').mode ≡ "strict")
    × ((config S "http://idp" r').admin_token ≡ "s3cret")
pg_store-stale_example =
    pg_store-stale demo_loads true none "http://idp" "default" (snapshot_with "v2") cfg_row
      empty_log refl

debug_identities-hides_example :
    let other = record demo_config {
      users = with_passwords (λ name u. "x") demo_config.users;
      service_principals_raw = with_secrets (λ name sp. name) demo_config.service_principals_raw;
      admin_token = "y";
    } in
    (debug_identities other ≡ debug_identities demo_config)
    × (debug_config other no_keys ≡ debug_config demo_config no_keys)
debug_identities-hides_example =
    debug_identities-hides demo_config no_keys (λ name u. "x") (λ name sp. name) "y"

-- an environment with one variable
abbrev one_variable : Surroundings
one_variable = record {
  environ = ("BOB_PW", "builder") ∷ [];
  read_text = λ path. none;
  str_of = λ v. "None";
}

abbrev raw_with : Value → Fields
raw_with password = field "auth_mode" (str "lax") (
    field "tenants"
      (dict (
        field "t1"
          (dict (field "users" (dict (field "bob" (dict (field "password" password end)) end)) end))
          end))
      end)

bob_resolved :
    resolve_secrets one_variable (raw_with (dict (field "from_env" (str "BOB_PW") end)))
    ≡ ok (raw_with (str "builder"))
unfolding resolve_secrets resolve_secret lookup
bob_resolved = refl

resolve_secrets-IsResolved_example :
    IsResolved (raw_with (str "builder"))
    × (get_value "auth_mode" (raw_with (str "builder"))
        ≡ get_value "auth_mode" (raw_with (dict (field "from_env" (str "BOB_PW") end))))
resolve_secrets-IsResolved_example =
    resolve_secrets-IsResolved one_variable (raw_with (dict (field "from_env" (str "BOB_PW") end)))
      "auth_mode" bob_resolved (ne_of_eq_false "admin_token" "auth_mode" refl)
      (ne_of_eq_false "tenants" "auth_mode" refl)
