-- ===== src/Tokens/Roles.antt =====
-- src/mock_idp/tokens.py: `resolve_roles` and `apply_roles_override`, and the reading of an identity,
-- which is a user or a service principal.
pub mod Layers
use mock_idp.Common.{
  String, Bool, true, false, Option, none, some, List, [], ◌∷◌, ◌++◌, map, if◌then◌else◌, elem,
  keep, not, or_else,
}
use mock_idp.Text.{is_empty, strip, split}
use mock_idp.Dict.{Dict, lookup}
use mock_idp.Models.{UserRecord, ServicePrincipalRecord, ClientAppRecord}
use mock_idp.Config.{Config}

-- `UserRecord | ServicePrincipalRecord`
pub data Identity : Type 0 where
  user : UserRecord → Identity
  service : ServicePrincipalRecord → Identity

abbrev pub realm_roles : Identity → List String
realm_roles (user u) = u.realm_roles
realm_roles (service sp) = sp.realm_roles

abbrev pub tenant_realm_roles : Identity → List String
tenant_realm_roles (user u) = u.tenant_realm_roles
tenant_realm_roles (service sp) = sp.tenant_realm_roles

abbrev pub roles : Identity → List String
roles (user u) = u.roles
roles (service sp) = sp.roles

abbrev pub allowed_audiences : Identity → List String
allowed_audiences (user u) = u.allowed_audiences
allowed_audiences (service sp) = sp.allowed_audiences

-- the key of an app's `grants` under which an identity stands
abbrev pub grants_key : String → Identity → String
grants_key key (user u) = key
grants_key key (service sp) = if is_empty sp.name then key else sp.name

-- the third layer: the app's grant if the audience has an app, else the identity's own roles
abbrev pub audience_roles : String → Identity → Option ClientAppRecord → List String
audience_roles key identity none = roles identity
audience_roles key identity (some app) = or_else (lookup (grants_key key identity) app.grants) []

-- the loop that keeps the first occurrence of each role; `result` holds what was seen
unfoldable pub collect : List String → List String → List String
collect result [] = result
collect result (r ∷ rs) = collect (if elem r result then result else result ++ r ∷ []) rs

unfoldable pub resolve_roles : Config → String → Identity → String → List String
unfolding collect lookup
resolve_roles cfg key identity aud = collect [] (
    tenant_realm_roles identity
    ++ realm_roles identity
    ++ audience_roles key identity (lookup aud cfg.client_apps))

-- `[r.strip() for r in override.split(",") if r.strip()]`
unfoldable pub comma_list : String → List String
unfolding strip split
comma_list s = keep (λ r. not (is_empty r)) (map strip (split b',' s))

unfoldable pub apply_roles_override : List String → Dict String → List String
unfolding comma_list lookup
apply_roles_override rs headers = elim (lookup "x-override-roles" headers) [
  | none ↦ rs
  | some override ↦ comma_list override
]
