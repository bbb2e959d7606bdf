-- ===== src/Handler/BadTokens/Refused.antt =====
-- Who gets a token of the three handlers, what they change, and that the token with the wrong
-- signature is refused.
use mock_idp.Common.{String, false, Option, none, some, ◌≡◌, refl, List, Bool-cases, inl, inr, ◌⊎◌}
use mock_idp.Dict.{Dict, lookup}
use mock_idp.Value.{Claims}
use mock_idp.Models.{UserRecord, ServicePrincipalRecord}
use mock_idp.Keys.{get, alt_key_for_alg, jwks_keys}
use mock_idp.Keys.Stores.{AllFit, get-AllFit, get_idempotent}
use mock_idp.Result.{ok, >>=-eq-ok}
use mock_idp.World.{World, bind}
use mock_idp.World.Calls.{lift_ok, bind-Same, Same, Same-refl}
use mock_idp.Tokens.Resolve.{resolve_aud}
use mock_idp.Tokens.Roles.{user, service}
use mock_idp.Tokens.Audience.Decision.{Allowed}
use mock_idp.Tokens.Signing.{sign, verify_token}
use mock_idp.Tokens.Signing.Verification.{Reads, verify_token-alt}
use mock_idp.Handler.Context.{Env, TokenContext, Request, effective_mode, flat_context, global_keys}
use mock_idp.Handler.Grants.{Issued, is_text, find_user, find_sp, user_key, sp_key}
use mock_idp.Handler.Token.Outcome.{
  HasPassword, HasSecret, is_text-eq, find_user-ok, find_sp-ok, user_token-ok, sp_token-ok,
}
use mock_idp.Handler.BadTokens.{
  test_claims, hour_reply, handle_token_wrong_sig, handle_token_unsigned, handle_token_wrong_alg,
}

-- what entitles a request to one of these tokens
pub data TestEntitled (env : Env) (ctx : TokenContext) (issuer : String) (form : Dict String)
    : Type 0 where
  test_password :
      (u : UserRecord)
      → lookup "grant_type" form ≡ some "password"
      → HasPassword ctx form u
      → Allowed env.cfg
          (user_key form)
          (user u)
          (resolve_aud form)
          (some (effective_mode ctx issuer))
      → TestEntitled env ctx issuer form
  test_secret :
      (sp : ServicePrincipalRecord)
      → is_text (lookup "grant_type" form) "password" ≡ false
      → HasSecret ctx form sp
      → Allowed env.cfg
          (sp_key form)
          (service sp)
          (resolve_aud form)
          (some (effective_mode ctx issuer))
      → TestEntitled env ctx issuer form

module _ (env : Env) (ctx : TokenContext) (issuer : String) (request : Request) where
  test_claims-ok :
      {i : Issued}
      → test_claims env ctx issuer request ≡ ok i
      → TestEntitled env ctx issuer request.form
  unfolding test_claims
  test_claims-ok h = elim (Bool-cases (is_text (lookup "grant_type" request.form) "password")) [
    | inl yes1 ↦
        let (u, found, made) = >>=-eq-ok (find_user ctx request.form) _ (rw yes1 at h) in
        test_password u (is_text-eq _ _ yes1) (find_user-ok ctx request.form found)
          (user_token-ok env ctx issuer request.form _ _ _ u _ _ made)
    | inr no1 ↦
        let (sp, found, made) = >>=-eq-ok (find_sp ctx request.form) _ (rw no1 at h) in
        test_secret sp no1 (find_sp-ok ctx request.form found)
          (sp_token-ok env ctx issuer request.form _ _ _ sp _ _ made)
  ]

  -- The three handlers give a token only to a request that shows a user's password, or, with any other
  -- grant, a service principal's secret, and that passes the audience gate.
  pub bad_tokens-TestEntitled :
      (w w' : World) {reply : Claims}
      → (handle_token_wrong_sig env ctx issuer request w ≡ (ok reply, w'))
        ⊎ (handle_token_unsigned env ctx issuer request w ≡ (ok reply, w'))
        ⊎ (handle_token_wrong_alg env ctx issuer request w ≡ (ok reply, w'))
      → TestEntitled env ctx issuer request.form
  unfolding handle_token_wrong_sig handle_token_unsigned handle_token_wrong_alg
  bad_tokens-TestEntitled w w' (inl h) =
      test_claims-ok (lift_ok (test_claims env ctx issuer request) w _ h).1
  bad_tokens-TestEntitled w w' (inr (inl h)) =
      test_claims-ok (lift_ok (test_claims env ctx issuer request) w _ h).1
  bad_tokens-TestEntitled w w' (inr (inr h)) =
      test_claims-ok (lift_ok (test_claims env ctx issuer request) w _ h).1

  -- The three handlers emit no event, call no webhook and change no fault, however they end.
  bad_tokens-Same :
      (w : World)
      → Same w (handle_token_wrong_sig env ctx issuer request w).1
        × Same w (handle_token_unsigned env ctx issuer request w).1
        × Same w (handle_token_wrong_alg env ctx issuer request w).1
  unfolding handle_token_wrong_sig handle_token_unsigned handle_token_wrong_alg
  bad_tokens-Same w = (
    bind-Same w _ _ (Same-refl w) (λ i v.
        bind-Same v _ _
          (bind-Same v _ _ (record { audit = refl; posts = refl; faults = refl })
            (λ k u. Same-refl u))
          (λ t u. Same-refl u)),
    bind-Same w _ _ (Same-refl w) (λ i v. Same-refl v),
    bind-Same w _ _ (Same-refl w) (λ i v.
        bind-Same v _ _ (record { audit = refl; posts = refl; faults = refl })
          (λ k u. Same-refl u)),
  )

-- On the flat routes a request whose claims could be built is answered by `handle_token_wrong_sig`
-- with these claims, signed with the alternative key for the algorithm, and the keys that the issuer
-- publishes afterwards do not verify that token.
pub wrong_sig-refused :
    (env : Env) (write : Claims → List Claims → Option (List Claims)) (issuer : String)
    (request : Request) (w : World) (i : Issued)
    → AllFit w.keys.stores
    → test_claims env (flat_context env write) issuer request ≡ ok i
    → let key = alt_key_for_alg (get issuer w.keys).0 i.1 in
      Reads env.codec i.0 key
      → let r = handle_token_wrong_sig env (flat_context env write) issuer request w in
        let token = sign env.codec i.0 key in
        (r.0 ≡ ok (hour_reply env (flat_context env write) issuer token))
        × (verify_token env.codec token (jwks_keys (get issuer r.1.keys).0) ≡ none)
unfolding handle_token_wrong_sig bind flat_context global_keys
wrong_sig-refused env write issuer request w i fits built reads = rw built (
  refl,
  rw (get_idempotent issuer w.keys) (
      verify_token-alt env.codec i.0 (get issuer w.keys).0 i.1 (get-AllFit issuer w.keys fits).0.1
        reads),
)
