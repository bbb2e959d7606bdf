-- ===== src/Tests/Handlers.antt =====
-- The handlers at concrete requests.
use mock_idp.Common.{true, false, ◌≡◌, refl, ap, ◌∙◌, [], ◌∷◌, or_else, elem}
use mock_idp.Int.{pos, ◌-ℤ◌, ◌+ℤ◌}
use mock_idp.Text.{or_empty, split, strip, lower, strip_suffix, parse_int}
use mock_idp.Dict.{lookup, insert, update}
use mock_idp.Value.{int, str, Claims}
use mock_idp.Keys.{get, signing_key_for_alg, init, new_rsa_key, new_ec_key}
use mock_idp.Chaos.{get_fault}
use mock_idp.Result
use mock_idp.Result.{Result, ok, err, http, uncaught}
use mock_idp.World.{World, bind}
use mock_idp.World.Calls.{Same}
use mock_idp.Tokens.Resolve.{resolve_aud, resolve_user_aud, resolve_shape, resolve_expiry}
use mock_idp.Tokens.Roles.{comma_list}
use mock_idp.Tokens.Overrides.{omit, omit_names}
use mock_idp.Tokens.Audience.Decision.{granted}
use mock_idp.Tokens.Signing.{sign}
use mock_idp.Providers.Registry.{entra_id, get_provider}
use mock_idp.Providers.EntraId
use mock_idp.Providers.Common.{common}
use mock_idp.Handler.Context.{
  Request, lower_keys, lower_from, effective_mode, flat_context, global_keys,
}
use mock_idp.Handler.Hooks.{apply_test_hooks, apply_pre}
use mock_idp.Handler.Issue.{audit_event, expires_in, emit_event}
use mock_idp.Handler.Grants.{find_user, password_grant}
use mock_idp.Handler.Token.{handle_token, dispatch, simple_grant, reply}
use mock_idp.Handler.Token.Completed.{
  Calm, Accepted, password_claims, issued_claims, handle_token-password, handle_token-omit_exp,
}
use mock_idp.Handler.Token.Answered.{LeftOf, Told, handle_token-Told}
use mock_idp.Handler.Token.Entitled.{Entitled, handle_token-Entitled}
use mock_idp.Handler.Token.Silent.{handle_token-QuietOnError}
use mock_idp.Tests.Setup.{
  alice, orders, demo_codec, demo_env, demo_context, demo_world, alice_request, alice_form,
  omit_request, wrong_request,
}

alice-Calm : Calm demo_env demo_context "corp" alice_request demo_world
unfolding lookup lower_keys lower_from get_fault
alice-Calm = record { no_delay = refl; no_failure = refl; no_fault = refl }

omit-Calm : Calm demo_env demo_context "corp" omit_request demo_world
unfolding lookup lower_keys lower_from get_fault lower insert
omit-Calm = record { no_delay = refl; no_failure = refl; no_fault = refl }

alice-Accepted : Accepted demo_env demo_context "corp" alice_request alice entra_id
unfolding lookup resolve_aud strip_suffix flat_context get_provider effective_mode
alice-Accepted = record {
  grant = refl;
  known = refl;
  shown = refl;
  provided = refl;
  allowed = granted orders ("buyer" ∷ "reader" ∷ []) refl refl;
}

omit-Accepted : Accepted demo_env demo_context "corp" omit_request alice entra_id
unfolding lookup resolve_aud strip_suffix flat_context get_provider effective_mode
omit-Accepted = record {
  grant = refl;
  known = refl;
  shown = refl;
  provided = refl;
  allowed = granted orders ("buyer" ∷ "reader" ∷ []) refl refl;
}

omit_named :
    elem "exp" (comma_list (or_empty (lookup "x-omit-claims" (lower_keys omit_request.headers))))
    ≡ true
unfolding lookup lower_keys lower_from lower insert comma_list split strip
omit_named = refl

-- a request whose header names one claim that the token has
abbrev upn_request : Request
upn_request = record { form = alice_form; headers = ("X-Omit-Claims", "upn") ∷ [] }

upn-Calm : Calm demo_env demo_context "corp" upn_request demo_world
unfolding lookup lower_keys lower_from get_fault lower insert
upn-Calm = record { no_delay = refl; no_failure = refl; no_fault = refl }

upn-Accepted : Accepted demo_env demo_context "corp" upn_request alice entra_id
unfolding lookup resolve_aud strip_suffix flat_context get_provider effective_mode
upn-Accepted = record {
  grant = refl;
  known = refl;
  shown = refl;
  provided = refl;
  allowed = granted orders ("buyer" ∷ "reader" ∷ []) refl refl;
}

exp_kept :
    elem "exp" (comma_list (or_empty (lookup "x-omit-claims" (lower_keys upn_request.headers))))
    ≡ false
unfolding lookup lower_keys lower_from lower insert comma_list split strip
exp_kept = refl

handle_token-Told_example :
    let (key, keys) = demo_context.keys.signing_key_for_alg "corp" "RS256" demo_world.keys in
    let r = handle_token demo_env demo_context "corp" upn_request demo_world in
    (left : Claims) × LeftOf
      (lookup "x-omit-claims" (lower_keys upn_request.headers))
      (password_claims demo_env demo_context "corp" upn_request alice entra_id)
      left
    × (r.0
        ≡ ok (
            ("access_token", str (sign demo_codec left key))
            ∷ ("token_type", str "Bearer")
            ∷ ("expires_in", int (pos 3600))
            ∷ ("scope", str "api://orders/.default")
            ∷ []))
    × Told demo_env demo_context "corp" "password" left keys demo_world r.1
unfolding lookup lower_keys lower_from lower insert resolve_expiry ◌-ℤ◌ ◌+ℤ◌
handle_token-Told_example =
    handle_token-Told demo_env demo_context "corp" upn_request alice entra_id demo_world upn-Calm
      upn-Accepted refl exp_kept

handle_token-omit_exp_example :
    let left = issued_claims demo_env demo_context "corp" omit_request alice entra_id in
    let r = handle_token demo_env demo_context "corp" omit_request demo_world in
    (r.0 ≡ err (uncaught "KeyError"))
    × (r.1.audit
        ≡ or_else
            (demo_context.store (audit_event "password" left) demo_world.audit)
            demo_world.audit)
handle_token-omit_exp_example =
    handle_token-omit_exp demo_env demo_context "corp" omit_request alice entra_id demo_world
      omit-Calm omit-Accepted omit_named

-- what the password request leaves
abbrev alice_after : World
alice_after = (handle_token demo_env demo_context "corp" alice_request demo_world).1

abbrev alice_reply : Claims
alice_reply = reply demo_env demo_context "corp" alice_request.form ("mock-corp-1", int (pos 3600))

alice_time :
    Result.◌>>=◌
      (expires_in demo_env
        (issued_claims demo_env demo_context "corp" alice_request alice entra_id))
      (λ time. ok (
        reply demo_env demo_context "corp" alice_request.form (
          sign demo_codec
              (issued_claims demo_env demo_context "corp" alice_request alice entra_id)
              (demo_context.keys.signing_key_for_alg "corp" "RS256" demo_world.keys).0,
          time,
        )))
    ≡ ok alice_reply
unfolding expires_in omit omit_names split lookup insert update common EntraId.user_claims
    resolve_expiry resolve_aud resolve_user_aud lower_keys lower_from sign flat_context global_keys
    get init signing_key_for_alg new_rsa_key new_ec_key resolve_shape ◌-ℤ◌
alice_time = refl

-- the password request is answered
alice_run : handle_token demo_env demo_context "corp" alice_request demo_world ≡ (
  Result.◌>>=◌
      (expires_in demo_env
        (issued_claims demo_env demo_context "corp" alice_request alice entra_id))
      (λ time. ok (
        reply demo_env demo_context "corp" alice_request.form (
          sign demo_codec
              (issued_claims demo_env demo_context "corp" alice_request alice entra_id)
              (demo_context.keys.signing_key_for_alg "corp" "RS256" demo_world.keys).0,
          time,
        ))),
  (emit_event demo_env demo_context "token_issued" "corp" "password"
      (issued_claims demo_env demo_context "corp" alice_request alice entra_id)
      (record demo_world {
        keys = (demo_context.keys.signing_key_for_alg "corp" "RS256" demo_world.keys).1;
      })).1,
)
alice_run =
    handle_token-password demo_env demo_context "corp" alice_request alice entra_id demo_world
      alice-Calm alice-Accepted

alice_answered :
    handle_token demo_env demo_context "corp" alice_request demo_world
    ≡ (ok alice_reply, alice_after)
alice_answered =
    ap (λ r. (r, alice_after)) (ap (λ (t : Result Claims × World). t.0) alice_run ∙ alice_time)

handle_token-Entitled_example :
    Entitled demo_env demo_context "corp" demo_world.keys alice_request.form
handle_token-Entitled_example =
    handle_token-Entitled demo_env demo_context "corp" alice_request demo_world alice_after
      alice_answered

-- what the request with the wrong password leaves
abbrev refused_after : World
refused_after = record demo_world { slept = 5 ∷ [] }

wrong_refused :
    handle_token demo_env demo_context "corp" wrong_request demo_world
    ≡ (err (http 401 "invalid_grant"), refused_after)
unfolding handle_token dispatch simple_grant password_grant find_user apply_test_hooks apply_pre
    get_fault lookup lower_keys lower_from lower insert parse_int bind flat_context
wrong_refused = refl

handle_token-QuietOnError_example : Same demo_world refused_after
handle_token-QuietOnError_example =
    handle_token-QuietOnError demo_env demo_context "corp" wrong_request demo_world refused_after
      401 "invalid_grant" wrong_refused
