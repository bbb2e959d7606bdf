-- ===== src/Handler/Context.antt =====
-- src/mock_idp/token_handler.py: `TokenContext` and `KeyResolver`; src/mock_idp/routers/oidc.py: the key
-- resolver and the context of the flat routes.
use mock_idp.Common.{ℕ, String, Option, List, [], ◌∷◌, if◌then◌else◌}
use mock_idp.Text.{lower, truthy, or_empty}
use mock_idp.Dict.{Dict, insert, lookup}
use mock_idp.Value.{Claims}
use mock_idp.Models.{UserRecord, ServicePrincipalRecord, ClientAppRecord}
use mock_idp.Config.{Config}
use mock_idp.Keys.{Key, KeyStore, get, IssuerKeys, jwks_keys, signing_key_for_alg, alt_key_for_alg}
use mock_idp.Tokens.Signing.{Codec}
use mock_idp.Providers.Common.{Clock}

-- `KeyResolver`: each call may make the keys of an issuer.
pub record KeyResolver : Type 0 where
  pub signing_key_for_alg : String → String → KeyStore → Key × KeyStore
  pub alt_key_for_alg : String → String → KeyStore → Key × KeyStore
  pub jwks_keys : String → KeyStore → List Key × KeyStore
  pub signing_public_key_pem : String → KeyStore → String × KeyStore

-- `store` writes an event to the audit log, or fails with an exception.
pub record TokenContext : Type 0 where
  pub iss_base : String
  pub users : Dict UserRecord
  pub service_principals : Dict ServicePrincipalRecord
  pub clients : Dict ClientAppRecord
  pub mode : String
  pub issuer_modes : Dict String
  pub store : Claims → List Claims → Option (List Claims)
  pub keys : KeyResolver

-- The form is that of a request body, in which each field has one value. The headers are as they
-- came.
pub record Request : Type 0 where
  pub form : Dict String
  pub headers : Dict String

-- What a request finds around it: the configuration, the libraries, the clock, the next draw of
-- `random.random()` in units of 2⁻⁵³, and the time in ISO format.
pub record Env : Type 0 where
  pub cfg : Config
  pub codec : Codec
  pub clock : Clock
  pub draw : ℕ
  pub timestamp : String

abbrev pub on_keys : {A : Type 0} → (IssuerKeys → A) → IssuerKeys × KeyStore → A × KeyStore
on_keys f (ik, ks) = (f ik, ks)

-- `_GlobalKeyResolver`
unfoldable pub global_keys : Codec → KeyResolver
global_keys codec = record {
  signing_key_for_alg = λ issuer alg ks. on_keys (λ ik. signing_key_for_alg ik alg) (get issuer ks);
  alt_key_for_alg = λ issuer alg ks. on_keys (λ ik. alt_key_for_alg ik alg) (get issuer ks);
  jwks_keys = λ issuer ks. on_keys jwks_keys (get issuer ks);
  signing_public_key_pem = λ issuer ks. on_keys (λ ik. codec.as_pem ik.signing) (get issuer ks);
}

-- `_ctx()`, with the backend's `write_token_event`
unfoldable pub flat_context : Env → (Claims → List Claims → Option (List Claims)) → TokenContext
flat_context env write = record {
  iss_base = env.cfg.iss_base;
  users = env.cfg.users;
  service_principals = env.cfg.service_principals;
  clients = env.cfg.client_apps;
  mode = env.cfg.mode;
  issuer_modes = env.cfg.issuer_modes;
  store = write;
  keys = global_keys env.codec;
}

-- `{k.lower(): v for k, v in headers.items()}`, behind the result so far
unfoldable pub lower_from : Dict String → Dict String → Dict String
lower_from d [] = d
lower_from d ((k, v) ∷ headers) = lower_from (insert (lower k) v d) headers

unfoldable pub lower_keys : Dict String → Dict String
lower_keys headers = lower_from [] headers

-- `ctx.issuer_modes.get(issuer) or ctx.mode`
unfoldable pub effective_mode : TokenContext → String → String
effective_mode ctx issuer =
    let mode = lookup issuer ctx.issuer_modes in if truthy mode then or_empty mode else ctx.mode
