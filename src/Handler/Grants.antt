-- ===== src/Handler/Grants.antt =====
-- src/mock_idp/token_handler.py: who asks for a token, and the claims that each grant builds. The code
-- of the two look-ups stands in every handler.
use mock_idp.Common.{String, Bool, false, Option, none, some, List, if◌then◌else◌, ◌==◌}
use mock_idp.Int.{ℤ}
use mock_idp.Text.{or_empty}
use mock_idp.Dict.{Dict, lookup}
use mock_idp.Value.{Claims}
use mock_idp.Models.{UserRecord, ServicePrincipalRecord}
use mock_idp.Result.{Result, ok, err, http, ◌>>=◌, ◌>>◌}
use mock_idp.Tokens.Resolve.{resolve_shape, resolve_expiry}
use mock_idp.Tokens.Roles.{user, service, resolve_roles, apply_roles_override}
use mock_idp.Tokens.Audience.{check_audience}
use mock_idp.Tokens.Overrides.{apply_overrides}
use mock_idp.Providers.Registry.{get_provider}
use mock_idp.Handler.Context.{Env, TokenContext}

-- `form.get(...) == s`
abbrev pub is_text : Option String → String → Bool
is_text none s = false
is_text (some t) s = t == s

-- `form.get("username") or ""`
abbrev pub user_key : Dict String → String
user_key form = or_empty (lookup "username" form)

-- `form.get("client_id") or ""`
abbrev pub sp_key : Dict String → String
sp_key form = or_empty (lookup "client_id" form)

abbrev pub check_password : Dict String → Option UserRecord → Result UserRecord
check_password form none = err (http 401 "invalid_grant")
check_password form (some u) =
    if is_text (lookup "password" form) u.password then ok u else err (http 401 "invalid_grant")

unfoldable pub find_user : TokenContext → Dict String → Result UserRecord
find_user ctx form = check_password form (lookup (user_key form) ctx.users)

abbrev pub check_secret :
    Dict String → Option ServicePrincipalRecord → Result ServicePrincipalRecord
check_secret form none = err (http 401 "invalid_client")
check_secret form (some sp) =
    if is_text (lookup "client_secret" form) sp.secret
    then ok sp
    else err (http 401 "invalid_client")

unfoldable pub find_sp : TokenContext → Dict String → Result ServicePrincipalRecord
find_sp ctx form = check_secret form (lookup (sp_key form) ctx.service_principals)

-- the claims and the algorithm with which they are to be signed
abbrev pub Issued : Type 0
Issued = Claims × String

module _ (env : Env) (ctx : TokenContext) (issuer : String) (form headers : Dict String)
    (aud mode : String) where
  -- the claims of a user, with a lifetime and roles that the caller chooses
  unfoldable pub user_token : UserRecord → ℤ → List String → Result Issued
  user_token u expires_in roles = do
    check_audience env.cfg (user_key form) (user u) aud (some mode)
    provider ← get_provider u.provider
    let shape = resolve_shape u.token_version form (lookup "x-token-shape" headers)
    let client_id = lookup "client_id" form
    ok (
      provider.user_claims env.cfg env.clock issuer u aud shape expires_in roles client_id,
      u.signing_alg,
    )

  -- the claims of a service principal
  unfoldable pub sp_token : ServicePrincipalRecord → ℤ → List String → Result Issued
  sp_token sp expires_in roles = do
    check_audience env.cfg (sp_key form) (service sp) aud (some mode)
    provider ← get_provider sp.provider
    let shape = resolve_shape sp.token_version form (lookup "x-token-shape" headers)
    ok (
      provider.sp_claims env.cfg env.clock issuer sp.canonical_id sp aud shape expires_in roles,
      sp.signing_alg,
    )

  -- the roles and the lifetime that the test headers may change
  abbrev user_roles : UserRecord → List String
  user_roles u = apply_roles_override (resolve_roles env.cfg (user_key form) (user u) aud) headers

  abbrev pub sp_roles : ServicePrincipalRecord → List String
  sp_roles sp = apply_roles_override (resolve_roles env.cfg (sp_key form) (service sp) aud) headers

  -- the branch `grant_type == "password"`
  unfoldable pub password_grant : Result Issued
  password_grant = do
    u ← find_user ctx form
    user_token u (resolve_expiry u.token_lifetime_seconds headers) (user_roles u)

  abbrev override : ServicePrincipalRecord → Issued → Issued
  override sp (claims, alg) =
      if sp.override_any_claim
      then (apply_overrides claims form sp.override_iss_too, alg)
      else (claims, alg)

  -- the claims of a service principal as the grants build them
  unfoldable pub full_sp_token : ServicePrincipalRecord → Result Issued
  full_sp_token sp = sp_token sp (resolve_expiry sp.token_lifetime_seconds headers) (sp_roles sp)

  -- the branch `grant_type == "client_credentials"`
  unfoldable pub client_grant : Result Issued
  client_grant = do sp ← find_sp ctx form; issued ← full_sp_token sp; ok (override sp issued)
