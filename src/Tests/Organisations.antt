-- ===== src/Tests/Organisations.antt =====
-- The hosted and the admin routes at concrete requests.
use mock_idp.Common.{
  ℕ, ◌≤◌, String, Option, none, some, ◌≡◌, ◌↔◌, ◌≢◌, refl, List, [], ◌∷◌, length, keep,
  ne_of_eq_false, arith,
}
use mock_idp.Int.{pos, ◌-ℤ◌}
use mock_idp.Text.{split, strip_prefix, ◌<>◌}
use mock_idp.Dict.{Dict, lookup, insert, update}
use mock_idp.Value.{int, Claims}
use mock_idp.Keys.{get, init, signing_key_for_alg, new_rsa_key, new_ec_key}
use mock_idp.Chaos.{Fault, delay_ms, get_fault}
use mock_idp.Webhooks.{fire_webhooks}
use mock_idp.Result.{Result, ok, err, http}
use mock_idp.World.{World, bind}
use mock_idp.Tokens.Resolve.{resolve_aud, resolve_shape, resolve_expiry}
use mock_idp.Tokens.Audience.{check_audience}
use mock_idp.Tokens.Overrides.{omit, omit_names}
use mock_idp.Tokens.Signing.{sign}
use mock_idp.Providers.Registry.{get_provider}
use mock_idp.Providers.Common.{common}
use mock_idp.Providers.EntraId
use mock_idp.Handler.Context.{
  Request, lower_keys, lower_from, effective_mode, flat_context, global_keys,
}
use mock_idp.Handler.Hooks.{apply_test_hooks}
use mock_idp.Handler.Issue.{emit_event, expires_in}
use mock_idp.Handler.Grants.{find_user, user_token, password_grant}
use mock_idp.Handler.Token.{handle_token, reply}
use mock_idp.Hosted.Sandbox.{sandbox_rate_check, is_recent, recent_hits}
use mock_idp.Hosted.Sandbox.Limit.{Trace, start, ask, accepted, sandbox_rate_check-limit}
use mock_idp.Hosted.Context.{OrgContext, HostedEnv, get_org, resolve_org, verify_api_key}
use mock_idp.Hosted.Token.{hosted_token, hosted_dispatch, hosted_simple, hosted_finish}
use mock_idp.Hosted.Token.Shared.{under_mode, hosted_token-handle_token}
use mock_idp.Hosted.Other.{hosted_userinfo, hosted_introspect}
use mock_idp.Hosted.Other.Shared.{unscoped, hosted_introspect-handle_introspect}
use mock_idp.Handler.Introspect.{handle_introspect}
use mock_idp.Hosted.Other.Access.{Admits, get_org-ok_iff, hosted_userinfo-refused}
use mock_idp.Admin.{admin_rotate, admin_list_chaos, admin_set_chaos, admin_clear_chaos}
use mock_idp.Admin.Guarded.{admin-forbidden}
use mock_idp.Keys.{jwks_keys}
use mock_idp.Keys.Kids.{numbered}
use mock_idp.Orgs.Keys.{load_or_create, rotate_org, restart, serialize_issuer_keys}
use mock_idp.Orgs.Keys.Restart.{empty_keys, fresh, restart-keeps, rotate_org-label}
use mock_idp.Tests.Setup.{demo_env, demo_context, demo_world, alice_form, alice_request}

-- the sandbox after one request
abbrev hit : Result (Unit {0}) × Dict (List ℕ)
hit = sandbox_rate_check "10.0.0.1" 5 []

hit-Trace : Trace "10.0.0.1" 5 (accepted hit.0 5 []) hit.1
hit-Trace = ask 5 start (ground arith)

sandbox_rate_check-limit_example :
    (length (keep (is_recent 5) (accepted hit.0 5 [])) ≤ 10)
    × (recent_hits 5 "10.0.0.1" hit.1 ≡ keep (is_recent 5) (accepted hit.0 5 []))
sandbox_rate_check-limit_example = sandbox_rate_check-limit hit-Trace

abbrev acme : OrgContext
acme = record { slug = "acme"; tier = "pro"; api_key_hash = some "#key"; context = demo_context }

-- the hash of the tests puts a sign before a text
abbrev hosted_env : HostedEnv
hosted_env = record {
  base = demo_env;
  orgs = ("acme", acme) ∷ [];
  sha256_hex = λ key. "#" <> key;
  ip = "10.0.0.1";
  arrived = 5;
}

get_org-ok_iff_example :
    (get_org hosted_env "acme" (some "Bearer key") ≡ ok acme)
    ↔ Admits hosted_env "acme" (some "Bearer key") acme
get_org-ok_iff_example = get_org-ok_iff hosted_env "acme" (some "Bearer key") acme

abbrev acme_run : Result Claims × World
acme_run = hosted_token hosted_env "acme" "corp" (some "Bearer key") alice_request demo_world

abbrev acme_reply : Claims
acme_reply = reply demo_env demo_context "acme/corp" alice_form ("mock-acme/corp-1", int (pos 3600))

acme_answered : acme_run.0 ≡ ok acme_reply
unfolding hosted_token resolve_org get_org verify_api_key strip_prefix lookup apply_test_hooks
    lower_keys lower_from bind hosted_dispatch hosted_simple hosted_finish password_grant find_user
    flat_context user_token check_audience effective_mode resolve_aud get_provider emit_event
    fire_webhooks expires_in omit EntraId.user_claims resolve_shape sign ◌-ℤ◌ global_keys
    resolve_expiry signing_key_for_alg get init new_rsa_key new_ec_key common update insert split
    omit_names
acme_answered = refl

hosted_userinfo-refused_example :
    hosted_userinfo hosted_env "acme" "corp" alice_request demo_world
    ≡ (err (http 401 "invalid_api_key"), demo_world)
unfolding lookup
hosted_userinfo-refused_example =
    hosted_userinfo-refused hosted_env "acme" "corp" alice_request demo_world acme refl
      (ne_of_eq_false "pro" "sandbox" refl)

abbrev slow_fault : Fault
slow_fault = record { mode = delay_ms; probability = 0; value = pos 10; skew_seconds = pos 0 }

-- a service principal asks about a token
abbrev asking : Request
asking = record {
  form = ("client_id", "robot") ∷ ("client_secret", "steel") ∷ ("token", "mock-corp-1") ∷ [];
  headers = [];
}

acme_found : resolve_org hosted_env "acme" (some "Bearer key") demo_world ≡ (ok acme, demo_world)
unfolding resolve_org get_org verify_api_key strip_prefix lookup bind
acme_found = refl

hosted_introspect-handle_introspect_example :
    hosted_introspect hosted_env "acme" "corp" (some "Bearer key") asking demo_world
    ≡ handle_introspect demo_env (unscoped demo_context) "acme/corp" asking demo_world
hosted_introspect-handle_introspect_example =
    hosted_introspect-handle_introspect hosted_env "acme" "corp" (some "Bearer key") asking acme
      demo_world demo_world acme_found

hosted_token-handle_token_example :
    hosted_token hosted_env "acme" "corp" (some "Bearer key") alice_request demo_world
    ≡ handle_token demo_env
        (under_mode (effective_mode demo_context "corp") demo_context)
        "acme/corp"
        alice_request
        demo_world
unfolding lookup get_fault
hosted_token-handle_token_example =
    hosted_token-handle_token hosted_env "acme" "corp" (some "Bearer key") alice_request acme
      demo_world demo_world acme_found refl refl

no_token : ◌≢◌ {A = Option String} none (some "")
no_token e = absurd (cc)

admin-forbidden_example :
    (admin_rotate demo_env none none demo_world
      ≡ (err (http 403 "invalid admin token"), demo_world))
    × (admin_list_chaos demo_env none demo_world
        ≡ (err (http 403 "invalid admin token"), demo_world))
    × (admin_set_chaos demo_env "corp" slow_fault none demo_world
        ≡ (err (http 403 "invalid admin token"), demo_world))
    × (admin_clear_chaos demo_env "corp" none demo_world
        ≡ (err (http 403 "invalid admin token"), demo_world))
admin-forbidden_example = admin-forbidden demo_env none none "corp" slow_fault demo_world no_token

-- the state after the fault was set, and after it was cleared
abbrev slowed : World
slowed = (admin_set_chaos demo_env "corp" slow_fault (some "") demo_world).1

restart-keeps_example :
    (serialize_issuer_keys
        (load_or_create "acme" "corp" (restart (load_or_create "acme" "corp" empty_keys).1)).0
      ≡ serialize_issuer_keys (load_or_create "acme" "corp" empty_keys).0)
    × (jwks_keys
          (load_or_create "acme" "corp" (restart (load_or_create "acme" "corp" empty_keys).1)).0
        ≡ jwks_keys (load_or_create "acme" "corp" empty_keys).0)
restart-keeps_example = restart-keeps {org_id = "acme"} "corp" fresh

rotate_org-label_example :
    ((rotate_org "acme" "corp" (load_or_create "acme" "corp" empty_keys).1).0
      ≡ numbered "acme/corp" 2)
    × ((rotate_org "acme" "corp" (restart (load_or_create "acme" "corp" empty_keys).1)).0
        ≡ numbered "corp" 2)
unfolding lookup
rotate_org-label_example = rotate_org-label "acme" "corp" empty_keys refl refl
