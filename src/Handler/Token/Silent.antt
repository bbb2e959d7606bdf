-- ===== src/Handler/Token/Silent.antt =====
-- A token request that ends in an HTTP error has written no event and called no webhook.
use mock_idp.Common.{ℕ, String, Option, none, some, ◌≡◌, List, arith}
use mock_idp.Tokens.Overrides.{omit}
use mock_idp.Tokens.Resolve.{resolve_aud}
use mock_idp.Dict.{Dict, lookup}
use mock_idp.Value.{Value, Claims}
use mock_idp.Keys.{KeyStore, Key}
use mock_idp.Chaos.{Fault, FaultMode, invalid_token, invalid_signature, expired_token, get_fault}
use mock_idp.Result.{Result, err, http}
use mock_idp.World.{World, ◌>>=◌, pure, lift}
use mock_idp.World.Calls.{
  Same, Same-refl, Quiet, QuietOnError, NoHttpError, NoHttpError-QuietOnError, bind-Same,
  bind-Same_error, bind_no_error, bind-NoHttpError,
}
use mock_idp.Webhooks.{fire_webhooks}
use mock_idp.Tokens.Signing.{make_unsigned_token}
use mock_idp.Handler.Context.{Env, TokenContext, Request, lower_keys, effective_mode}
use mock_idp.Handler.Issue.{
  expire, sign_with, corrupt, corrupt_or_sign, emit_event, remaining, expires_in,
}
use mock_idp.Handler.Grants.{Issued, is_text, password_grant, client_grant}
use mock_idp.Handler.Token.{
  finish, presented, exchange_grant, simple_grant, dispatch, handle_token, reply, exchange_reply,
  exchange_aud, copy_claims, with_actor, subject_names, assertion_names, token_exchange, jwt_bearer,
}
use mock_idp.Handler.Token.Quiet.{
  pure-NoHttpError, if-QuietOnError, raise-QuietOnError, with_keys-Quiet, apply_test_hooks-Quiet,
  apply_pre-Quiet,
}

module _ (env : Env) (ctx : TokenContext) (issuer : String) where
  pub presented-Quiet : (token code : String) → Quiet (presented env ctx issuer token code)
  unfolding presented
  presented-Quiet token code w = bind-Same w _ _ (Same-refl w) λ _ u.
      bind-Same u _ _ (with_keys-Quiet (ctx.keys.jwks_keys issuer) u) λ keys v.
        bind-Same v _ _ (Same-refl v) λ claims v.
          bind-Same v _ _ (Same-refl v)
            λ expired v. bind-Same v _ _ (Same-refl v) λ _ v. Same-refl v

  sign_with-NoHttpError :
      (claims : Claims) (key : KeyStore → Key × KeyStore) → NoHttpError (sign_with env claims key)
  sign_with-NoHttpError claims key w s d = bind_no_error s d _ _ (λ e. cc) (λ k v s' d' e. cc)

  corrupt-NoHttpError :
      (claims : Claims) (alg : String) (mode : FaultMode) (fault : Fault)
      → NoHttpError (corrupt env ctx claims alg issuer mode fault)
  corrupt-NoHttpError claims alg invalid_token fault =
      pure-NoHttpError (make_unsigned_token env.codec claims)
  corrupt-NoHttpError claims alg invalid_signature fault =
      sign_with-NoHttpError claims (ctx.keys.alt_key_for_alg issuer alg)
  corrupt-NoHttpError claims alg expired_token fault =
      sign_with-NoHttpError (expire env claims fault) (ctx.keys.signing_key_for_alg issuer alg)
  corrupt-NoHttpError claims alg _ fault =
      sign_with-NoHttpError claims (ctx.keys.signing_key_for_alg issuer alg)

  corrupt_or_sign-NoHttpError :
      (claims : Claims) (fault : Option Fault) (alg : String)
      → NoHttpError (corrupt_or_sign env ctx claims fault alg issuer)
  unfolding corrupt_or_sign
  corrupt_or_sign-NoHttpError claims none alg =
      sign_with-NoHttpError claims (ctx.keys.signing_key_for_alg issuer alg)
  corrupt_or_sign-NoHttpError claims (some f) alg = corrupt-NoHttpError claims alg f.mode f

  emit_event-NoHttpError :
      (kind grant_type : String) (claims : Claims)
      → NoHttpError (emit_event env ctx kind issuer grant_type claims)
  unfolding emit_event fire_webhooks
  emit_event-NoHttpError kind grant_type claims w s d =
      bind_no_error s d _ _ (λ e. cc) (λ _ v s' d' e. cc)

  remaining-NoHttpError :
      (now : ℕ) (v : Option Value) (s : ℕ) (d : String) → remaining now v ≡ err (http s d) → ⊥
  remaining-NoHttpError now v s d e = ground arith

  expires_in-NoHttpError : (claims : Claims) → NoHttpError (lift (expires_in env claims))
  unfolding expires_in
  expires_in-NoHttpError claims w s d e =
      remaining-NoHttpError env.clock.replied (lookup "exp" claims) s d e

  finish-NoHttpError :
      (headers : Dict String) (grant_type : String) (claims : Claims) (alg : String)
      → NoHttpError (finish env ctx issuer headers grant_type claims alg)
  unfolding finish
  finish-NoHttpError headers grant_type claims alg w s d =
      let left = omit claims (lookup "x-omit-claims" headers) in
      bind_no_error s d _ _ (corrupt_or_sign-NoHttpError left (get_fault issuer w.faults) alg w s d)
        λ token v s d.
          bind_no_error s d _ _ (emit_event-NoHttpError "token_issued" grant_type left v s d)
            λ _ v s d. bind_no_error s d _ _ (expires_in-NoHttpError left v s d) λ time v s d e. cc

  finish-QuietOnError :
      (headers : Dict String) (grant_type : String) (claims : Claims) (alg : String)
      → QuietOnError (finish env ctx issuer headers grant_type claims alg)
  finish-QuietOnError headers grant_type claims alg =
      NoHttpError-QuietOnError _ (finish-NoHttpError headers grant_type claims alg)

  finish_reply-QuietOnError :
      (headers : Dict String) (grant_type : String) (claims : Claims) (alg : String)
      (f : String × Value → Claims)
      → QuietOnError (finish env ctx issuer headers grant_type claims alg >>= λ r. pure (f r))
  finish_reply-QuietOnError headers grant_type claims alg f =
      NoHttpError-QuietOnError
        (finish env ctx issuer headers grant_type claims alg >>= λ r. pure (f r))
        (bind-NoHttpError (finish env ctx issuer headers grant_type claims alg) (λ r. pure (f r))
          (finish-NoHttpError headers grant_type claims alg) λ r. pure-NoHttpError (f r))

  simple_grant-QuietOnError :
      (grant_type : String) (issued : Result Issued) (form headers : Dict String)
      → QuietOnError (simple_grant env ctx issuer grant_type issued form headers)
  unfolding simple_grant
  simple_grant-QuietOnError grant_type issued form headers w w' s d =
      bind-Same_error w w' s d _ _ (Same-refl w)
        λ i. finish_reply-QuietOnError headers grant_type i.0 i.1 (reply env ctx issuer form)

  exchange_grant-QuietOnError :
      (grant_type token_field code : String) (names : List String) (form headers : Dict String)
      (aud mode : String)
      → QuietOnError
          (exchange_grant env ctx issuer grant_type token_field code names form headers aud mode)
  unfolding exchange_grant
  exchange_grant-QuietOnError grant_type token_field code names form headers aud mode w w' s d =
      bind-Same_error w w' s d _ _ (Same-refl w) λ sp v v' s d.
        bind-Same_error v v' s d _ _ (presented-Quiet _ code v) λ subject v v' s d.
          bind-Same_error v v' s d _ _ (Same-refl v) λ i.
            finish_reply-QuietOnError headers grant_type
              (with_actor sp.canonical_id (copy_claims names subject i.0)) i.1
              (exchange_reply env ctx issuer)

  dispatch-QuietOnError :
      (grant_type : Option String) (form headers : Dict String)
      → QuietOnError (dispatch env ctx issuer grant_type form headers)
  unfolding dispatch
  dispatch-QuietOnError grant_type form headers =
      let aud = resolve_aud form in
      let mode = effective_mode ctx issuer in
      if-QuietOnError (is_text grant_type "password") _ _
        (simple_grant-QuietOnError "password" (password_grant env ctx issuer form headers aud mode)
          form headers)
        (if-QuietOnError (is_text grant_type "client_credentials") _ _
          (simple_grant-QuietOnError "client_credentials"
            (client_grant env ctx issuer form headers aud mode) form headers)
          (if-QuietOnError (is_text grant_type token_exchange) _ _
            (exchange_grant-QuietOnError token_exchange "subject_token" "invalid_request"
              subject_names form headers (exchange_aud env ctx issuer form) mode)
            (if-QuietOnError (is_text grant_type jwt_bearer) _ _
              (exchange_grant-QuietOnError jwt_bearer "assertion" "invalid_grant" assertion_names
                form headers aud mode)
              (raise-QuietOnError (http 400 "unsupported_grant_type")))))

  -- When `handle_token` ends in an HTTP error, the audit log is as before, no webhook was called, and
  -- the faults are as before.
  pub handle_token-QuietOnError :
      (request : Request) (w w' : World) (status : ℕ) (detail : String)
      → handle_token env ctx issuer request w ≡ (err (http status detail), w')
      → Same w w'
  unfolding handle_token
  handle_token-QuietOnError request w w' s d =
      let headers = lower_keys request.headers in
      bind-Same_error w w' s d _ _ (apply_test_hooks-Quiet headers w) λ _ v v' s d.
        bind-Same_error v v' s d _ _ (apply_pre-Quiet env issuer v)
          λ _. dispatch-QuietOnError (lookup "grant_type" request.form) request.form headers
