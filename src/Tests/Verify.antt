-- ===== src/Tests/Verify.antt =====
-- Introspection, userinfo and the bad tokens at concrete requests.
use mock_idp.Common.{none, ◌≡◌, refl, inl, inr}
use mock_idp.Text.{strip, strip_suffix}
use mock_idp.Dict.{lookup}
use mock_idp.Value.{Claims}
use mock_idp.Keys.{
  IssuerKeys, get, signing_key_for_alg, alt_key_for_alg, init, new_rsa_key, new_ec_key, jwks_keys,
  rotate_keys,
}
use mock_idp.Keys.Kids.{IsNamed, init-IsNamed}
use mock_idp.Keys.Reach.{no_keys}
use mock_idp.Result.{Result, ok}
use mock_idp.World.{World, bind}
use mock_idp.Tokens.Resolve.{resolve_aud, resolve_shape}
use mock_idp.Tokens.Roles.{user, resolve_roles}
use mock_idp.Tokens.Audience.{check_audience}
use mock_idp.Providers.EntraId
use mock_idp.Providers.Registry.{get_provider}
use mock_idp.Handler.Grants.{find_user, user_token}
use mock_idp.Int.{pos}
use mock_idp.Tokens.Signing.{sign, verify_token, make_unsigned_token}
use mock_idp.Tokens.Signing.Verification.{Reads, verify_token-rotated}
use mock_idp.Handler.Context.{Env, effective_mode, lower_keys, lower_from, flat_context}
use mock_idp.Handler.BadTokens.{
  test_claims, hour_reply, handle_token_wrong_sig, handle_token_unsigned,
}
use mock_idp.Handler.BadTokens.Refused.{TestEntitled, bad_tokens-TestEntitled, wrong_sig-refused}
use mock_idp.Tests.Setup.{
  alice, demo_config, demo_claims, demo_codec, demo_env, demo_world, alice_request, write_all,
  codec_of, demo_clock, alice_form,
}

-- the keys of the issuer in a store without keys
abbrev corp : IssuerKeys
corp = (get "corp" no_keys).0

signing-Reads : Reads demo_codec demo_claims (signing_key_for_alg corp "RS256")
unfolding sign strip get init lookup signing_key_for_alg new_rsa_key new_ec_key
signing-Reads = record {
  compact = refl;
  nonempty = refl;
  known = λ ks h. rw h refl;
  unknown = λ ks h. rw h refl;
}

corp-IsNamed : IsNamed corp
unfolding get init lookup
corp-IsNamed = init-IsNamed "corp" 0

rsa-Reads : Reads demo_codec demo_claims corp.signing
unfolding signing_key_for_alg
rsa-Reads = signing-Reads

verify_token-rotated_example :
    verify_token demo_codec
      (sign demo_codec demo_claims corp.signing)
      (jwks_keys (rotate_keys corp 6))
    ≡ none
verify_token-rotated_example =
    verify_token-rotated demo_codec demo_claims corp 6 corp-IsNamed rsa-Reads

-- the claims of the bad tokens of the test user
abbrev alice_hour : Claims
alice_hour =
    EntraId.user_claims demo_config demo_clock "corp" alice "api://orders" "v2" (pos 3600)
      (resolve_roles demo_config "alice" (user alice) "api://orders") none

abbrev hour_env : Env
hour_env = record demo_env { codec = codec_of alice_hour }

hour_claims :
    test_claims hour_env (flat_context hour_env write_all) "corp" alice_request
    ≡ ok (alice_hour, "RS256")
unfolding test_claims find_user user_token check_audience get_provider lookup resolve_aud
    resolve_shape strip_suffix flat_context effective_mode lower_keys lower_from
hour_claims = refl

hour-Reads : Reads hour_env.codec alice_hour (alt_key_for_alg corp "RS256")
unfolding sign strip get init lookup alt_key_for_alg new_rsa_key new_ec_key
hour-Reads = record {
  compact = refl;
  nonempty = refl;
  known = λ ks h. rw h refl;
  unknown = λ ks h. rw h refl;
}

abbrev hour_run : Result Claims × World
hour_run =
    handle_token_wrong_sig hour_env (flat_context hour_env write_all) "corp" alice_request
      demo_world

wrong_sig-refused_example :
    (hour_run.0
      ≡ ok (
          hour_reply hour_env
            (flat_context hour_env write_all)
            "corp"
            (sign hour_env.codec alice_hour (alt_key_for_alg corp "RS256"))))
    × (verify_token hour_env.codec
          (sign hour_env.codec alice_hour (alt_key_for_alg corp "RS256"))
          (jwks_keys (get "corp" hour_run.1.keys).0)
        ≡ none)
wrong_sig-refused_example =
    wrong_sig-refused hour_env write_all "corp" alice_request demo_world (alice_hour, "RS256") tt
      hour_claims hour-Reads

unsigned_answered :
    handle_token_unsigned hour_env (flat_context hour_env write_all) "corp" alice_request demo_world
    ≡ (ok (hour_reply hour_env (flat_context hour_env write_all) "corp" "e30.e30."), demo_world)
unfolding handle_token_unsigned bind make_unsigned_token
unsigned_answered = rw hour_claims refl

bad_tokens-TestEntitled_example :
    TestEntitled hour_env (flat_context hour_env write_all) "corp" alice_form
bad_tokens-TestEntitled_example =
    bad_tokens-TestEntitled hour_env (flat_context hour_env write_all) "corp" alice_request
      demo_world demo_world (inr (inl unsigned_answered))
