-- ===== src/Handler/Discovery.antt =====
-- src/mock_idp/token_handler.py: `handle_jwks` and `handle_discovery`.
use mock_idp.Common.{String, List, [], ◌∷◌, map}
use mock_idp.Text.{◌<>◌}
use mock_idp.Value.{Value, str, list, Items, nil, cons, texts, Claims}
use mock_idp.World.{Action, ◌>>=◌, ◌>>◌, pure}
use mock_idp.Handler.Context.{Env, TokenContext, Request, lower_keys}
use mock_idp.Handler.Hooks.{apply_test_hooks}
use mock_idp.Handler.Issue.{with_keys}
use mock_idp.Handler.Token.{token_exchange, jwt_bearer}

abbrev pub values : List Value → Items
values [] = nil
values (v ∷ vs) = cons v (values vs)

unfoldable pub handle_jwks : Env → TokenContext → String → Request → Action Claims
handle_jwks env ctx issuer request = do
  apply_test_hooks (lower_keys request.headers)
  keys ← with_keys (ctx.keys.jwks_keys issuer)
  pure (("keys", list (values (map env.codec.as_dict keys))) ∷ [])

-- the endpoints of an issuer
abbrev pub discovery_document : String → Claims
discovery_document base =
    ("issuer", str base)
    ∷ ("authorization_endpoint", str (base <> "/authorize"))
    ∷ ("token_endpoint", str (base <> "/token"))
    ∷ ("jwks_uri", str (base <> "/jwks"))
    ∷ ("userinfo_endpoint", str (base <> "/userinfo"))
    ∷ ("introspection_endpoint", str (base <> "/introspect"))
    ∷ ("response_types_supported", texts ("token" ∷ "id_token" ∷ []))
    ∷ ("subject_types_supported", texts ("public" ∷ []))
    ∷ ("id_token_signing_alg_values_supported", texts ("RS256" ∷ "ES256" ∷ []))
    ∷ ("scopes_supported", texts ("openid" ∷ "profile" ∷ "email" ∷ []))
    ∷ (
      "grant_types_supported",
      texts ("client_credentials" ∷ "password" ∷ token_exchange ∷ jwt_bearer ∷ []),
    )
    ∷ ("introspection_endpoint_auth_methods_supported", texts ("client_secret_post" ∷ []))
    ∷ []

unfoldable pub handle_discovery : TokenContext → String → Request → Action Claims
handle_discovery ctx issuer request = do
  apply_test_hooks (lower_keys request.headers)
  pure (discovery_document (ctx.iss_base <> "/" <> issuer))
