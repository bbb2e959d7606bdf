-- ===== src/Providers/Registry.antt =====
-- src/mock_idp/providers/__init__.py: the module that a provider's name stands for.
use mock_idp.Common.{String, Option, List, if◌then◌else◌, ◌==◌}
use mock_idp.Int.{ℤ}
use mock_idp.Value.{Claims}
use mock_idp.Models.{UserRecord, ServicePrincipalRecord}
use mock_idp.Config.{Config}
use mock_idp.Result.{Result, ok, err, uncaught}
use mock_idp.Providers.Common.{Clock}
use mock_idp.Providers.EntraId
use mock_idp.Providers.Okta
use mock_idp.Providers.Cognito
use mock_idp.Providers.Keycloak

-- the two functions of a provider module
pub record Provider : Type 0 where
  pub user_claims :
      Config
      → Clock
      → String
      → UserRecord
      → String
      → String
      → ℤ
      → List String
      → Option String
      → Claims
  pub sp_claims :
      Config
      → Clock
      → String
      → String
      → ServicePrincipalRecord
      → String
      → String
      → ℤ
      → List String
      → Claims

abbrev pub entra_id : Provider
entra_id = record { user_claims = EntraId.user_claims; sp_claims = EntraId.sp_claims }

abbrev pub okta : Provider
okta = record { user_claims = Okta.user_claims; sp_claims = Okta.sp_claims }

abbrev pub cognito : Provider
cognito = record { user_claims = Cognito.user_claims; sp_claims = Cognito.sp_claims }

abbrev pub keycloak : Provider
keycloak = record { user_claims = Keycloak.user_claims; sp_claims = Keycloak.sp_claims }

unfoldable pub get_provider : String → Result Provider
get_provider name =
    if name == "entra_id"
    then ok entra_id
    else if name == "okta"
    then ok okta
    else if name == "cognito"
    then ok cognito
    else if name == "keycloak"
    then ok keycloak
    else err (uncaught "ValueError")
