-- ===== src/Tests/Delegated.antt =====
-- A token exchange at a concrete request.
use mock_idp.Common.{String, none, ◌≡◌, refl, [], ◌∷◌}
use mock_idp.Int.{pos}
use mock_idp.Text.{strip}
use mock_idp.Dict.{Dict, lookup}
use mock_idp.Value.{Claims}
use mock_idp.Keys.{get, init, jwks_keys, new_rsa_key, new_ec_key}
use mock_idp.Chaos.{get_fault}
use mock_idp.Result
use mock_idp.Result.{ok}
use mock_idp.World.{World, bind}
use mock_idp.Tokens.Resolve.{resolve_shape, resolve_expiry}
use mock_idp.Tokens.Audience.{check_audience}
use mock_idp.Tokens.Signing.{sign, verify_token}
use mock_idp.Providers.Registry.{keycloak, get_provider}
use mock_idp.Handler.Context.{
  Request, lower_keys, lower_from, effective_mode, flat_context, global_keys,
}
use mock_idp.Handler.Issue.{expires_in}
use mock_idp.Handler.Grants.{Issued, sp_roles, find_sp, sp_token, full_sp_token}
use mock_idp.Handler.Token.{
  token_exchange, subject_names, exchange_aud, exchange_reply, presented, is_expired, handle_token,
}
use mock_idp.Handler.Token.Completed.{Calm}
use mock_idp.Handler.Token.Answered.{LeftOf, Told}
use mock_idp.Handler.Token.Delegated.{
  Delegates, Delegation, exchange, Granted, handle_token-Delegates,
}
use mock_idp.Tests.Setup.{
  robot, demo_claims, demo_codec, demo_clock, demo_config, demo_env, demo_context, demo_world,
}

abbrev exchange_form : Dict String
exchange_form =
    ("grant_type", token_exchange)
    ∷ ("client_id", "robot")
    ∷ ("client_secret", "steel")
    ∷ ("subject_token", "mock-corp-1")
    ∷ ("audience", "api://orders")
    ∷ []

abbrev exchange_request : Request
exchange_request = record { form = exchange_form; headers = [] }

abbrev robot_issued : Issued
robot_issued = (
  keycloak.sp_claims demo_config demo_clock "corp" "robot-id" robot "api://orders"
      (resolve_shape "v1" exchange_form none) (pos 600)
      (sp_roles demo_env demo_context "corp" exchange_form [] "api://orders" "strict" robot),
  "ES256",
)

-- after the subject's token was checked
abbrev checked_world : World
checked_world =
    (presented demo_env demo_context "corp" "mock-corp-1" "invalid_request" demo_world).1

exchange-Calm : Calm demo_env demo_context "corp" exchange_request demo_world
unfolding lookup lower_keys lower_from get_fault
exchange-Calm = record { no_delay = refl; no_failure = refl; no_fault = refl }

exchange-Delegation :
    Delegation demo_env demo_context "corp" exchange_form token_exchange "subject_token"
      "invalid_request" subject_names "api://orders"
unfolding lookup exchange_aud
exchange-Delegation = exchange refl

exchange-Granted :
    Granted demo_env demo_context "corp" exchange_form [] "subject_token" "invalid_request"
      "api://orders" robot demo_claims robot_issued demo_world checked_world
unfolding lookup find_sp full_sp_token sp_token check_audience effective_mode get_provider presented
    strip flat_context global_keys get init verify_token is_expired bind new_rsa_key new_ec_key
    jwks_keys resolve_expiry
exchange-Granted = record { known = refl; verified = refl; allowed = refl }

handle_token-Delegates_example :
    (claims : Claims) × Delegates subject_names demo_claims robot_issued.0 "robot-id" claims
    × (left : Claims) × LeftOf none claims left
    × (let (key, keys) = demo_context.keys.signing_key_for_alg "corp" "ES256" checked_world.keys in
        let r = handle_token demo_env demo_context "corp" exchange_request demo_world in
        (r.0
          ≡ Result.◌>>=◌ (expires_in demo_env left) (λ time.
            ok (exchange_reply demo_env demo_context "corp" (sign demo_codec left key, time))))
        × Told demo_env demo_context "corp" token_exchange left keys checked_world r.1)
unfolding lookup lower_keys lower_from
handle_token-Delegates_example =
    handle_token-Delegates demo_env demo_context "corp" exchange_request robot demo_claims
      robot_issued demo_world checked_world exchange-Calm exchange-Delegation exchange-Granted
