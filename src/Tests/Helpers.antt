-- ===== src/Tests/Helpers.antt =====
-- The token helpers and the providers at concrete inputs.
use mock_idp.Common.{String, false, none, ◌≡◌, ◌↔◌, refl, [], ◌∷◌, ◌++◌}
use mock_idp.Int.{pos}
use mock_idp.Text.{show}
use mock_idp.Dict.{Dict, lookup}
use mock_idp.Chaos.{Fault, delay_ms}
use mock_idp.Result.{ok}
use mock_idp.Tokens.Resolve.{resolve_expiry}
use mock_idp.Tokens.Resolve.Requests.{resolve_expiry-show}
use mock_idp.Tokens.Roles.{user, resolve_roles, tenant_realm_roles, realm_roles, audience_roles}
use mock_idp.Tokens.Roles.Layers.{firsts, resolve_roles-firsts}
use mock_idp.Tokens.Audience.{check_audience}
use mock_idp.Tokens.Audience.Decision.{Allowed, check_audience-ok_iff}
use mock_idp.Tokens.Overrides.{apply_overrides}
use mock_idp.Tokens.Overrides.Reserved.{apply_overrides-reserved}
use mock_idp.Tests.Setup.{alice, demo_config, demo_claims}

check_audience-ok_iff_example :
    (check_audience demo_config "alice" (user alice) "api://orders" none ≡ ok tt)
    ↔ Allowed demo_config "alice" (user alice) "api://orders" none
check_audience-ok_iff_example =
    check_audience-ok_iff demo_config "alice" (user alice) "api://orders" none

resolve_roles-firsts_example :
    resolve_roles demo_config "alice" (user alice) "api://orders"
    ≡ firsts (
        tenant_realm_roles (user alice)
        ++ realm_roles (user alice)
        ++ audience_roles "alice" (user alice) (lookup "api://orders" demo_config.client_apps))
resolve_roles-firsts_example = resolve_roles-firsts demo_config "alice" (user alice) "api://orders"

-- a form that overrides three claims
abbrev override_form : Dict String
override_form =
    ("sub", "someone") ∷ ("iss", "http://evil") ∷ ("exp", "42") ∷ ("client_secret", "steel") ∷ []

apply_overrides-reserved_example :
    lookup "client_secret" (apply_overrides demo_claims override_form false)
    ≡ lookup "client_secret" demo_claims
apply_overrides-reserved_example =
    apply_overrides-reserved demo_claims override_form "client_secret" refl

resolve_expiry-show_example : resolve_expiry (pos 600) (("x-test-expires-in", "42") ∷ []) ≡ pos 42
unfolding lookup show
resolve_expiry-show_example =
    resolve_expiry-show (pos 600) (("x-test-expires-in", "42") ∷ []) 42 refl refl

abbrev slow : Fault
slow = record { mode = delay_ms; probability = 0; value = pos 10; skew_seconds = pos 0 }
