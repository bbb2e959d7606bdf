-- ===== src/Tests/Issued.antt =====
-- A token of the token endpoint at the introspection endpoint.
use mock_idp.Common.{some, ◌≡◌, refl, ap, [], ◌∷◌}
use mock_idp.Text.{strip, strip_suffix, split}
use mock_idp.Int.{pos, ◌-ℤ◌}
use mock_idp.Dict.{lookup, insert, update}
use mock_idp.Value.{Claims, int}
use mock_idp.Result.{ok}
use mock_idp.Chaos.{get_fault}
use mock_idp.Keys.{Key, get, init, new_rsa_key, new_ec_key, signing_key_for_alg}
use mock_idp.Keys.Reach.{no_keys}
use mock_idp.Tokens.Resolve.{resolve_aud, resolve_user_aud, resolve_shape, resolve_expiry}
use mock_idp.Tokens.Signing.{sign}
use mock_idp.Tokens.Signing.Verification.{Reads}
use mock_idp.Tokens.Audience.Decision.{granted}
use mock_idp.Providers.Common.{common}
use mock_idp.Providers.EntraId
use mock_idp.Tokens.Overrides.{omit, omit_names}
use mock_idp.Providers.Registry.{entra_id, get_provider}
use mock_idp.Handler.Context.{
  Env, TokenContext, Request, lower_keys, lower_from, effective_mode, flat_context, global_keys,
}
use mock_idp.Handler.Token.{handle_token, reply}
use mock_idp.Handler.Token.Completed.{Calm, Accepted, issued_claims}
use mock_idp.Handler.Introspect.{handle_introspect, respond}
use mock_idp.Handler.Introspect.Issued.{handle_token-handle_introspect}
use mock_idp.Tests.Setup.{
  alice, robot, orders, demo_env, demo_context, demo_world, alice_request, alice_form, write_all,
  codec_of,
}

-- the claims that alice is given
abbrev alice_left : Claims
alice_left = issued_claims demo_env demo_context "corp" alice_request alice entra_id

-- the surroundings in which the JWT library reads them back
abbrev token_env : Env
token_env = record demo_env { codec = codec_of alice_left }

abbrev token_context : TokenContext
token_context = flat_context token_env write_all

abbrev asking : Request
asking = record {
  form = ("client_id", "robot") ∷ ("client_secret", "steel") ∷ ("token", "mock-corp-1") ∷ [];
  headers = [];
}

abbrev token_left : Claims
token_left = issued_claims token_env token_context "corp" alice_request alice entra_id

abbrev corp_key : Key
corp_key = signing_key_for_alg (get "corp" no_keys).0 "RS256"

same_left : alice_left ≡ token_left
unfolding flat_context global_keys effective_mode
same_left = refl

token-Calm : Calm token_env token_context "corp" alice_request demo_world
unfolding lookup lower_keys lower_from get_fault
token-Calm = record { no_delay = refl; no_failure = refl; no_fault = refl }

token-Accepted : Accepted token_env token_context "corp" alice_request alice entra_id
unfolding lookup resolve_aud strip_suffix flat_context get_provider effective_mode
token-Accepted = record {
  grant = refl;
  known = refl;
  shown = refl;
  provided = refl;
  allowed = granted orders ("buyer" ∷ "reader" ∷ []) refl refl;
}

token-Reads : Reads token_env.codec token_left corp_key
unfolding sign strip get init lookup signing_key_for_alg new_rsa_key new_ec_key
token-Reads = record {
  compact = refl;
  nonempty = refl;
  known = λ ks h. rw h (ap some same_left);
  unknown = λ ks h. rw h refl;
}

token_expiry : lookup "exp" token_left ≡ some (int (pos 4600))
unfolding omit omit_names split lookup insert update common EntraId.user_claims resolve_expiry
    resolve_aud resolve_user_aud lower_keys lower_from flat_context global_keys resolve_shape
token_expiry = refl

token_shown : lookup "token" asking.form ≡ some (sign token_env.codec token_left corp_key)
unfolding lookup sign get init signing_key_for_alg new_rsa_key new_ec_key
token_shown = refl

handle_token-handle_introspect_example :
    let r = handle_token token_env token_context "corp" alice_request demo_world in
    (r.0
      ≡ ok (
          reply token_env token_context "corp" alice_form
            (sign token_env.codec token_left corp_key, int (pos 3600))))
    × ((handle_introspect token_env token_context "corp" asking r.1).0
        ≡ respond token_env token_context "robot" (some token_left))
unfolding lookup ◌-ℤ◌
handle_token-handle_introspect_example =
    handle_token-handle_introspect token_env write_all "corp" alice_request alice entra_id
      demo_world (pos 4600) asking token-Calm token-Accepted tt token_expiry token-Reads
      (robot, refl, refl) token_shown
