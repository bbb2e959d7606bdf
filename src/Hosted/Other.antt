-- ===== src/Hosted/Other.antt =====
-- src/mock_idp/routers/hosted.py: discovery, JWKS, introspection, user info and the malformed token.
pub mod Access
pub mod Shared
use mock_idp.Common.{
  ℕ, String, Bool, true, false, Option, none, some, List, [], ◌∷◌, map, ◌==◌, if◌then◌else◌,
}
use mock_idp.Text.{lower, or_empty, strip, strip_prefix, is_empty, ◌<>◌}
use mock_idp.Dict.{Dict, lookup}
use mock_idp.Value.{Value, str, list, texts, Claims}
use mock_idp.Result.{Result, ok, err, http, raise_if, or_raise}
use mock_idp.World.{World, Action, ◌>>=◌, ◌>>◌, pure, lift}
use mock_idp.Tokens.Signing.{verify_token}
use mock_idp.Handler.Context.{Env, TokenContext, Request, lower_keys}
use mock_idp.Handler.Hooks.{apply_test_hooks}
use mock_idp.Handler.Issue.{with_keys}
use mock_idp.Handler.Token.{token_exchange, is_expired}
use mock_idp.Handler.Discovery.{values}
use mock_idp.Handler.Introspect.{find_caller, active_response, inactive}
use mock_idp.Hosted.Context.{OrgContext, HostedEnv, full_issuer, get_org, resolve_org}

-- the endpoints of an organisation's issuer
abbrev pub hosted_document : String → Claims
hosted_document base =
    ("issuer", str base)
    ∷ ("token_endpoint", str (base <> "/token"))
    ∷ ("jwks_uri", str (base <> "/jwks"))
    ∷ ("userinfo_endpoint", str (base <> "/userinfo"))
    ∷ ("introspection_endpoint", str (base <> "/introspect"))
    ∷ ("response_types_supported", texts ("token" ∷ "id_token" ∷ []))
    ∷ ("subject_types_supported", texts ("public" ∷ []))
    ∷ ("id_token_signing_alg_values_supported", texts ("RS256" ∷ "ES256" ∷ []))
    ∷ ("scopes_supported", texts ("openid" ∷ "profile" ∷ "email" ∷ []))
    ∷ ("grant_types_supported", texts ("client_credentials" ∷ "password" ∷ token_exchange ∷ []))
    ∷ ("introspection_endpoint_auth_methods_supported", texts ("client_secret_post" ∷ []))
    ∷ []

unfoldable pub hosted_discovery :
    HostedEnv → String → String → Option String → Request → Action Claims
hosted_discovery henv org issuer authorization request = do
  found ← resolve_org henv org authorization
  apply_test_hooks (lower_keys request.headers)
  pure (hosted_document (henv.base.cfg.iss_base <> "/" <> full_issuer org issuer))

unfoldable pub hosted_jwks : HostedEnv → String → String → Option String → Request → Action Claims
hosted_jwks henv org issuer authorization request = do
  found ← resolve_org henv org authorization
  apply_test_hooks (lower_keys request.headers)
  keys ← with_keys (found.context.keys.jwks_keys (full_issuer org issuer))
  pure (("keys", list (values (map henv.base.codec.as_dict keys))) ∷ [])

-- the answer for a token that was verified, or was not
unfoldable pub hosted_respond : Env → Option Claims → Result Claims
hosted_respond env none = ok inactive
hosted_respond env (some claims) = elim (is_expired env claims) [
  | err e ↦ err e
  | ok expired ↦ ok (if expired then inactive else active_response claims)
]

unfoldable pub hosted_introspect :
    HostedEnv → String → String → Option String → Request → Action Claims
hosted_introspect henv org issuer authorization request = do
  found ← resolve_org henv org authorization
  lift (find_caller found.context request.form)
  let token = strip (or_empty (lookup "token" request.form))
  lift (raise_if (is_empty token) (http 400 "invalid_request"))
  keys ← with_keys (found.context.keys.jwks_keys (full_issuer org issuer))
  lift (hosted_respond henv.base (verify_token henv.base.codec token keys))

-- `request.headers.get(name)`: the first header of that name, in whatever case
unfoldable pub get_header : String → Dict String → Option String
get_header name [] = none
get_header name ((k, v) ∷ headers) = if lower k == name then some v else get_header name headers

-- The organisation is looked up without the header that carries the token.
unfoldable pub hosted_userinfo : HostedEnv → String → String → Request → Action Claims
hosted_userinfo henv org issuer request = do
  found ← lift (get_org henv org none)
  token ← lift (
      or_raise (strip_prefix "Bearer " (or_empty (get_header "authorization" request.headers)))
        (http 401 "missing bearer token"))
  keys ← with_keys (found.context.keys.jwks_keys (full_issuer org issuer))
  lift (or_raise (verify_token henv.base.codec token keys) (http 401 "invalid token"))

abbrev pub malformed : Claims
malformed =
    ("access_token", str "eyJhbGciOiJSUzI1NiJ9.this-is-not-base64-or-json.signature-bytes-garbage")
    ∷ []

abbrev check_known : Option OrgContext → Result Claims
check_known none = err (http 404 "org_not_found")
check_known (some org) = ok malformed

unfoldable pub hosted_token_malformed : HostedEnv → String → Result Claims
hosted_token_malformed henv org = check_known (lookup org henv.orgs)
