-- ===== src/Handler/BadTokens.antt =====
-- src/mock_idp/token_handler.py: the handlers that issue tokens which a validator must refuse.
pub mod Refused
use mock_idp.Common.{ℕ, String, Bool, Option, none, some, List, [], ◌∷◌, if◌then◌else◌}
use mock_idp.Int.{ℤ, pos}
use mock_idp.Dict.{Dict, lookup}
use mock_idp.Value.{Value, int, str, Claims}
use mock_idp.Result
use mock_idp.Result.{Result, ok}
use mock_idp.World.{World, Action, ◌>>=◌, pure, lift}
use mock_idp.Tokens.Resolve.{resolve_aud}
use mock_idp.Tokens.Roles.{user, service, resolve_roles}
use mock_idp.Tokens.Signing.{make_unsigned_token, make_wrong_alg_token}
use mock_idp.Handler.Context.{Env, TokenContext, Request, lower_keys, effective_mode}
use mock_idp.Handler.Issue.{with_keys, sign_with}
use mock_idp.Handler.Grants.{
  Issued, is_text, user_key, sp_key, find_user, find_sp, user_token, sp_token,
}

module _ (env : Env) (ctx : TokenContext) (issuer : String) where
  -- The claims that the three handlers build in the same way: any grant but `password` is taken for
  -- client credentials, the lifetime is an hour, and the test headers but the shape have no effect.
  unfoldable pub test_claims : Request → Result Issued
  test_claims request =
      let form = request.form in
      let headers = lower_keys request.headers in
      let aud = resolve_aud form in
      let mode = effective_mode ctx issuer in
      if is_text (lookup "grant_type" form) "password"
      then Result.◌>>=◌ (find_user ctx form) (λ u.
        user_token env ctx issuer form headers aud mode u (pos 3600)
          (resolve_roles env.cfg (user_key form) (user u) aud))
      else Result.◌>>=◌ (find_sp ctx form) (λ sp.
        sp_token env ctx issuer form headers aud mode sp (pos 3600)
          (resolve_roles env.cfg (sp_key form) (service sp) aud))

  abbrev pub hour_reply : String → Claims
  hour_reply token =
      ("access_token", str token)
      ∷ ("token_type", str "Bearer")
      ∷ ("expires_in", int (pos 3600))
      ∷ []

  unfoldable pub handle_token_wrong_sig : Request → Action Claims
  handle_token_wrong_sig request = do
    issued ← lift (test_claims request)
    token ← sign_with env issued.0 (ctx.keys.alt_key_for_alg issuer issued.1)
    pure (hour_reply token)

  unfoldable pub handle_token_unsigned : Request → Action Claims
  handle_token_unsigned request = do
    issued ← lift (test_claims request)
    pure (hour_reply (make_unsigned_token env.codec issued.0))

  unfoldable pub handle_token_wrong_alg : Request → Action Claims
  handle_token_wrong_alg request = do
    issued ← lift (test_claims request)
    pem ← with_keys (ctx.keys.signing_public_key_pem issuer)
    pure (hour_reply (make_wrong_alg_token env.codec issued.0 pem))
