-- ===== src/Handler/Token.antt =====
-- src/mock_idp/token_handler.py: `handle_token`.
pub mod Outcome
pub mod Entitled
pub mod Completed
pub mod Answered
pub mod Delegated
pub mod Hooked
pub mod Quiet
pub mod Silent
use mock_idp.Common.{
  ℕ, String, Bool, true, false, Option, none, some, List, [], ◌∷◌, if◌then◌else◌, ◌==◌, or_else,
}
use mock_idp.Int.{ℤ, pos, ltb_ℤ}
use mock_idp.Text.{or_empty, truthy, strip, is_empty}
use mock_idp.Dict.{Dict, lookup, insert, contains}
use mock_idp.Value.{Value, bool, int, str, dict, Claims, fields}
use mock_idp.Models.{ServicePrincipalRecord}
use mock_idp.Chaos.{get_fault}
use mock_idp.Result.{Result, ok, err, http, uncaught, raise_if, or_raise}
use mock_idp.World.{World, Action, ◌>>=◌, ◌>>◌, pure, raise, lift}
use mock_idp.Tokens.Resolve.{resolve_aud}
use mock_idp.Tokens.Overrides.{omit}
use mock_idp.Tokens.Signing.{verify_token}
use mock_idp.Handler.Context.{Env, TokenContext, Request, lower_keys, effective_mode}
use mock_idp.Handler.Hooks.{apply_test_hooks, apply_pre}
use mock_idp.Handler.Issue.{with_keys, corrupt_or_sign, emit_event, expires_in}
use mock_idp.Handler.Grants.{Issued, is_text, find_sp, password_grant, client_grant, full_sp_token}

abbrev pub token_exchange : String
token_exchange = "urn:ietf:params:oauth:grant-type:token-exchange"

abbrev pub jwt_bearer : String
jwt_bearer = "urn:ietf:params:oauth:grant-type:jwt-bearer"

abbrev pub access_token_type : String
access_token_type = "urn:ietf:params:oauth:token-type:access_token"

-- `v < now`, where `v` is the claim `exp` or 0
abbrev before : ℕ → Option Value → Result Bool
before now none = ok (ltb_ℤ (pos 0) (pos now))
before now (some (int z)) = ok (ltb_ℤ z (pos now))
before now (some (bool true)) = ok (ltb_ℤ (pos 1) (pos now))
before now (some (bool false)) = ok (ltb_ℤ (pos 0) (pos now))
before now (some _) = err (uncaught "TypeError")

-- `claims.get("exp", 0) < int(time.time())`
unfoldable pub is_expired : Env → Claims → Result Bool
is_expired env claims = before env.clock.checked (lookup "exp" claims)

-- the loop that copies claims of a presented token
unfoldable pub copy_claims : List String → Claims → Claims → Claims
copy_claims [] subject claims = claims
copy_claims (c ∷ cs) subject claims =
    copy_claims cs subject (elim (lookup c subject) [ none ↦ claims | some v ↦ insert c v claims ])

abbrev pub subject_names : List String
subject_names = "sub" ∷ "oid" ∷ "tid" ∷ "upn" ∷ "preferred_username" ∷ "unique_name" ∷ "name" ∷ []

-- the names that the on-behalf-of grant copies, in its order, and then `scp`
abbrev pub assertion_names : List String
assertion_names =
    "sub" ∷ "oid" ∷ "tid" ∷ "preferred_username" ∷ "upn" ∷ "unique_name" ∷ "name" ∷ "scp" ∷ []

-- `claims["act"] = {"sub": sp._canonical_id}`
abbrev pub with_actor : String → Claims → Claims
with_actor canonical_id claims =
    insert "act" (dict (fields (("sub", str canonical_id) ∷ []))) claims

module _ (env : Env) (ctx : TokenContext) (issuer : String) where
  -- Omit, sign or corrupt, and emit: the claims that are left, the token and its remaining time.
  unfoldable pub finish : Dict String → String → Claims → String → Action (String × Value)
  finish headers grant_type claims alg w =
      let left = omit claims (lookup "x-omit-claims" headers) in
      (do
        token ← corrupt_or_sign env ctx left (get_fault issuer w.faults) alg issuer
        emit_event env ctx "token_issued" issuer grant_type left
        time ← lift (expires_in env left)
        pure (token, time))
        w

  -- the response of the password and client_credentials grants
  abbrev pub reply : Dict String → String × Value → Claims
  reply form (token, time) =
      ("access_token", str token)
      ∷ ("token_type", str "Bearer")
      ∷ ("expires_in", time)
      ∷ ("scope", str (or_else (lookup "scope" form) "openid profile email"))
      ∷ []

  -- the response of the two grants that present a token
  abbrev pub exchange_reply : String × Value → Claims
  exchange_reply (token, time) =
      ("access_token", str token)
      ∷ ("issued_token_type", str access_token_type)
      ∷ ("token_type", str "Bearer")
      ∷ ("expires_in", time)
      ∷ []

  -- the checks of a presented token, each with the error of its grant
  unfoldable pub presented : String → String → Action Claims
  presented token code = do
    lift (raise_if (is_empty token) (http 400 "invalid_request"))
    keys ← with_keys (ctx.keys.jwks_keys issuer)
    claims ← lift (or_raise (verify_token env.codec token keys) (http 400 code))
    expired ← lift (is_expired env claims)
    lift (raise_if expired (http 400 code))
    pure claims

  -- the branches `token-exchange` and `jwt-bearer`
  unfoldable pub exchange_grant :
      String
      → String
      → String
      → List String
      → Dict String
      → Dict String
      → String
      → String
      → Action Claims
  exchange_grant grant_type token_field code names form headers aud mode = do
    sp ← lift (find_sp ctx form)
    subject ← presented (strip (or_empty (lookup token_field form))) code
    issued ← lift (full_sp_token env ctx issuer form headers aud mode sp)
    let claims = with_actor sp.canonical_id (copy_claims names subject issued.0)
    result ← finish headers grant_type claims issued.1
    pure (exchange_reply result)

  unfoldable pub simple_grant : String → Result Issued → Dict String → Dict String → Action Claims
  simple_grant grant_type issued form headers = do
    i ← lift issued
    result ← finish headers grant_type i.0 i.1
    pure (reply form result)

  -- `form.get("audience") or resolve_aud(form)`
  unfoldable pub exchange_aud : Dict String → String
  exchange_aud form =
      let audience = lookup "audience" form in
      if truthy audience then or_empty audience else resolve_aud form

  -- the choice of the grant
  unfoldable pub dispatch : Option String → Dict String → Dict String → Action Claims
  dispatch grant_type form headers =
      let aud = resolve_aud form in
      let mode = effective_mode ctx issuer in
      if is_text grant_type "password"
      then simple_grant "password" (password_grant env ctx issuer form headers aud mode) form
          headers
      else if is_text grant_type "client_credentials"
      then simple_grant "client_credentials" (client_grant env ctx issuer form headers aud mode)
          form headers
      else if is_text grant_type token_exchange
      then exchange_grant token_exchange "subject_token" "invalid_request" subject_names form
          headers (exchange_aud form) mode
      else if is_text grant_type jwt_bearer
      then exchange_grant jwt_bearer "assertion" "invalid_grant" assertion_names form headers aud
          mode
      else raise (http 400 "unsupported_grant_type")

  unfoldable pub handle_token : Request → Action Claims
  handle_token request = do
    apply_test_hooks (lower_keys request.headers)
    apply_pre env issuer
    dispatch (lookup "grant_type" request.form) request.form (lower_keys request.headers)
