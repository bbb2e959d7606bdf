-- ===== src/Models.antt =====
-- src/mock_idp/models.py: the records of the identity store and their validators. A validator returns
-- `none` where the source raises ValueError.
use mock_idp.Common.{String, Bool, Option, none, some, List, [], ◌∷◌, ◌==◌, ◌||◌, if◌then◌else◌}
use mock_idp.Int.{ℤ}
use mock_idp.Text.{lower}
use mock_idp.Dict.{Dict, insert}
use mock_idp.Value.{Claims}

-- The fields that the loader injects stand under their names without the leading underscore.
pub record UserRecord : Type 0 where
  pub password : String
  pub upn : Option String
  pub preferred_username : Option String
  pub oid : String
  pub tid : String
  pub token_version : String
  pub token_lifetime_seconds : ℤ
  pub signing_alg : String
  pub realm_roles : List String
  pub tenant_realm_roles : List String
  pub provider : String
  pub roles : List String
  pub groups : List String
  pub allowed_audiences : List String
  pub extra_claims : Claims

pub record ServicePrincipalRecord : Type 0 where
  pub client_id : Option String
  pub secret : String
  pub label : Option String
  pub token_version : String
  pub token_lifetime_seconds : ℤ
  pub signing_alg : String
  pub realm_roles : List String
  pub tenant_realm_roles : List String
  pub provider : String
  pub roles : List String
  pub groups : List String
  pub tid : String
  pub allowed_audiences : List String
  pub extra_claims : Claims
  pub override_any_claim : Bool
  pub override_iss_too : Bool
  pub canonical_id : String
  pub name : String

pub record ClientAppRecord : Type 0 where
  pub app_id : Option String
  pub label : Option String
  pub roles : List String
  pub grants : Dict (List String)

pub record TenantRecord : Type 0 where
  pub provider : String
  pub realm_roles : List String
  pub users : Dict UserRecord
  pub service_principals : Dict ServicePrincipalRecord
  pub clients : Dict ClientAppRecord

-- `timeout_seconds` goes to the HTTP client alone and is left out.
pub record WebhookConfig : Type 0 where
  pub url : String
  pub events : List String

pub record AppConfig : Type 0 where
  pub auth_mode : String
  pub cors_allow_origins : List String
  pub admin_token : String
  pub issuer_modes : Dict String
  pub webhooks : List WebhookConfig
  pub tenants : Dict TenantRecord

abbrev one_of : String → String → String → Option String
one_of a b v = if v == a || v == b then some v else none

unfoldable pub valid_version : String → Option String
valid_version v = one_of "v1" "v2" v

unfoldable pub valid_signing_alg : String → Option String
valid_signing_alg v = one_of "RS256" "ES256" v

unfoldable pub valid_mode : String → Option String
valid_mode v = one_of "lax" "strict" (lower v)

abbrev set_mode : String → Dict String → Option String → Option (Dict String)
set_mode slug result none = none
set_mode slug result (some mode) = some (insert slug mode result)

infixl 5 ◌>>=◌
abbrev ◌>>=◌ : Option (Dict String) → (Dict String → Option (Dict String)) → Option (Dict String)
none >>= f = none
some d >>= f = f d

-- the loop of `_valid_issuer_modes`, behind the result so far
unfoldable pub issuer_modes_from : Dict String → Dict String → Option (Dict String)
unfolding valid_mode
issuer_modes_from result [] = some result
issuer_modes_from result ((slug, mode) ∷ v) =
    set_mode slug result (valid_mode mode) >>= λ next. issuer_modes_from next v

unfoldable pub valid_issuer_modes : Dict String → Option (Dict String)
unfolding issuer_modes_from
valid_issuer_modes v = issuer_modes_from [] v
