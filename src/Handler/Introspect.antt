-- ===== src/Handler/Introspect.antt =====
-- src/mock_idp/token_handler.py: `handle_introspect` and `handle_userinfo`.
pub mod Issued
pub mod Response
pub mod Verified
use mock_idp.Common.{
  ℕ, String, Bool, true, false, not, Option, none, some, List, [], ◌∷◌, if◌then◌else◌, elem, ◌==◌,
  ◌&&◌,
}
use mock_idp.Text.{or_empty, strip, strip_prefix, is_empty}
use mock_idp.Dict.{Dict, lookup, insert, contains}
use mock_idp.Value.{Value, bool, str, list, Claims, items_contain}
use mock_idp.Models.{ServicePrincipalRecord}
use mock_idp.Result.{Result, ok, err, http, raise_if, or_raise}
use mock_idp.World.{World, Action, ◌>>=◌, ◌>>◌, pure, raise, lift}
use mock_idp.Tokens.Signing.{verify_token}
use mock_idp.Handler.Context.{Env, TokenContext, Request}
use mock_idp.Handler.Issue.{with_keys}
use mock_idp.Handler.Grants.{sp_key}
use mock_idp.Handler.Token.{is_expired}

abbrev pub pass_through : List String
pass_through =
    "sub" ∷ "iss" ∷ "aud" ∷ "exp" ∷ "iat" ∷ "nbf" ∷ "jti" ∷ "scope" ∷ "azp" ∷ "preferred_username"
    ∷ "name" ∷ "upn" ∷ "roles" ∷ "groups" ∷ "scp" ∷ "tid" ∷ "appid" ∷ "ver" ∷ []

-- the caller, by its id and its secret, each "" if it is absent
abbrev check_caller : String → Option ServicePrincipalRecord → Result (Unit {0})
check_caller secret none = err (http 401 "invalid_client")
check_caller secret (some sp) =
    if sp.secret == secret then ok tt else err (http 401 "invalid_client")

unfoldable pub find_caller : TokenContext → Dict String → Result (Unit {0})
find_caller ctx form =
    check_caller (or_empty (lookup "client_secret" form))
      (lookup (sp_key form) ctx.service_principals)

-- `caller_id in aud_list`
abbrev in_audience : String → Option Value → Bool
in_audience caller none = false
in_audience caller (some (list vs)) = items_contain caller vs
in_audience caller (some (str aud)) = not (is_empty aud) && caller == aud
in_audience caller (some _) = false

-- A caller that is a registered resource sees only the tokens that are meant for it.
unfoldable pub is_visible : TokenContext → String → Claims → Bool
is_visible ctx caller claims =
    if contains caller ctx.clients then in_audience caller (lookup "aud" claims) else true

abbrev pub inactive : Claims
inactive = ("active", bool false) ∷ []

-- the loop over the claims, behind the response so far
unfoldable pub pass_claims : Claims → Claims → Claims
pass_claims response [] = response
pass_claims response ((claim, value) ∷ claims) =
    pass_claims (if elem claim pass_through then insert claim value response else response) claims

-- `response["client_id"] = claims["azp"]`, if the one is there and the other is not
abbrev add_client : Option Value → Claims → Claims
add_client none response = response
add_client (some azp) response =
    if contains "client_id" response then response else insert "client_id" azp response

unfoldable pub active_response : Claims → Claims
active_response claims =
    add_client (lookup "azp" claims)
      (pass_claims (("active", bool true) ∷ ("token_type", str "Bearer") ∷ []) claims)

-- the answer for a token that was verified, or was not
unfoldable pub respond : Env → TokenContext → String → Option Claims → Result Claims
respond env ctx caller none = ok inactive
respond env ctx caller (some claims) =
    let answer = if is_visible ctx caller claims then active_response claims else inactive in
    elim (is_expired env claims) [
      | err e ↦ err e
      | ok expired ↦ ok (if expired then inactive else answer)
    ]

unfoldable pub handle_introspect : Env → TokenContext → String → Request → Action Claims
handle_introspect env ctx issuer request = do
  lift (find_caller ctx request.form)
  let token = strip (or_empty (lookup "token" request.form))
  lift (raise_if (is_empty token) (http 400 "invalid_request"))
  keys ← with_keys (ctx.keys.jwks_keys issuer)
  lift (respond env ctx (sp_key request.form) (verify_token env.codec token keys))

unfoldable pub handle_userinfo : Env → TokenContext → String → String → Action Claims
handle_userinfo env ctx issuer authorization = do
  token ← lift (or_raise (strip_prefix "Bearer " authorization) (http 401 "missing bearer token"))
  keys ← with_keys (ctx.keys.jwks_keys issuer)
  lift (or_raise (verify_token env.codec token keys) (http 401 "invalid token"))
