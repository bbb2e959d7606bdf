-- ===== src/Hosted/Token.antt =====
-- src/mock_idp/routers/hosted.py: `hosted_token`, `_hosted_emit` and `hosted_token_wrong_sig`. They
-- read the organisation's store and keys; the helpers of src/mock_idp/tokens.py that they call read
-- the module variables of src/mock_idp/config.py.
pub mod Shared
use mock_idp.Common.{
  ℕ, String, Bool, true, false, Option, none, some, List, [], ◌∷◌, if◌then◌else◌, ◌==◌,
}
use mock_idp.Text.{or_empty, truthy, strip}
use mock_idp.Int.{pos}
use mock_idp.Dict.{Dict, lookup}
use mock_idp.Value.{Value, Claims}
use mock_idp.Result
use mock_idp.Result.{Result, ok, http}
use mock_idp.World.{World, Action, ◌>>=◌, ◌>>◌, pure, raise, lift}
use mock_idp.Tokens.Resolve.{resolve_aud}
use mock_idp.Tokens.Roles.{user, service, resolve_roles}
use mock_idp.Tokens.Overrides.{omit}
use mock_idp.Handler.Context.{Env, TokenContext, Request, lower_keys, effective_mode}
use mock_idp.Handler.Hooks.{apply_test_hooks}
use mock_idp.Handler.Issue.{sign_with, emit_event, expires_in}
use mock_idp.Handler.Grants.{
  Issued, is_text, user_key, sp_key, find_user, find_sp, user_token, sp_token, full_sp_token,
  password_grant, client_grant,
}
use mock_idp.Handler.Token.{
  token_exchange, reply, exchange_reply, presented, exchange_aud, copy_claims, subject_names,
  with_actor,
}
use mock_idp.Handler.BadTokens.{hour_reply}
use mock_idp.Hosted.Context.{OrgContext, HostedEnv, full_issuer, resolve_org}

-- `issuer` is the scoped issuer, which stands in the claims and under which the keys are.
module _ (env : Env) (ctx : TokenContext) (issuer : String) where
  -- omit, sign, emit: the token and its remaining time
  unfoldable pub hosted_finish : Dict String → String → Claims → String → Action (String × Value)
  hosted_finish headers grant_type claims alg =
      let left = omit claims (lookup "x-omit-claims" headers) in
      do
        token ← sign_with env left (ctx.keys.signing_key_for_alg issuer alg)
        emit_event env ctx "token_issued" issuer grant_type left
        time ← lift (expires_in env left)
        pure (token, time)

  -- the end of the password and client_credentials grants
  unfoldable pub hosted_simple : String → Result Issued → Dict String → Dict String → Action Claims
  hosted_simple grant_type issued form headers = do
    i ← lift issued
    result ← hosted_finish headers grant_type i.0 i.1
    pure (reply env ctx issuer form result)

  -- the branch `token-exchange`
  unfoldable pub hosted_exchange : Dict String → Dict String → String → Action Claims
  hosted_exchange form headers mode = do
    sp ← lift (find_sp ctx form)
    subject ←
        presented env ctx issuer (strip (or_empty (lookup "subject_token" form))) "invalid_request"
    issued ←
        lift (full_sp_token env ctx issuer form headers (exchange_aud env ctx issuer form) mode sp)
    let claims = with_actor sp.canonical_id (copy_claims subject_names subject issued.0)
    result ← hosted_finish headers token_exchange claims issued.1
    pure (exchange_reply env ctx issuer result)

  -- the choice of the grant
  unfoldable pub hosted_dispatch : Dict String → Dict String → String → Action Claims
  hosted_dispatch form headers mode =
      let grant_type = lookup "grant_type" form in
      let aud = resolve_aud form in
      if is_text grant_type "password"
      then hosted_simple "password" (password_grant env ctx issuer form headers aud mode) form
          headers
      else if is_text grant_type "client_credentials"
      then hosted_simple "client_credentials" (client_grant env ctx issuer form headers aud mode)
          form headers
      else if is_text grant_type token_exchange
      then hosted_exchange form headers mode
      else raise (http 400 "unsupported_grant_type")

unfoldable pub hosted_token : HostedEnv → String → String → Option String → Request → Action Claims
hosted_token henv org issuer authorization request = do
  found ← resolve_org henv org authorization
  apply_test_hooks (lower_keys request.headers)
  hosted_dispatch henv.base found.context (full_issuer org issuer) request.form
      (lower_keys request.headers) (effective_mode found.context issuer)

module _ (env : Env) (ctx : TokenContext) (issuer : String) where
  -- the claims of the token with the wrong signature
  unfoldable pub hosted_test_claims : Request → String → Result Issued
  hosted_test_claims request mode =
      let form = request.form in
      let headers = lower_keys request.headers in
      let aud = resolve_aud form in
      if is_text (lookup "grant_type" form) "password"
      then Result.◌>>=◌ (find_user ctx form) (λ u.
        user_token env ctx issuer form headers aud mode u (pos 3600)
          (resolve_roles env.cfg (user_key form) (user u) aud))
      else Result.◌>>=◌ (find_sp ctx form) (λ sp.
        sp_token env ctx issuer form headers aud mode sp (pos 3600)
          (resolve_roles env.cfg (sp_key form) (service sp) aud))

unfoldable pub hosted_token_wrong_sig :
    HostedEnv → String → String → Option String → Request → Action Claims
hosted_token_wrong_sig henv org issuer authorization request = do
  found ← resolve_org henv org authorization
  issued ← lift (
      hosted_test_claims henv.base found.context (full_issuer org issuer) request
        (effective_mode found.context issuer))
  token ←
      sign_with henv.base issued.0
        (found.context.keys.alt_key_for_alg (full_issuer org issuer) issued.1)
  pure (hour_reply henv.base found.context issuer token)
