-- ===== src/Config.antt =====
-- src/mock_idp/config.py: the module variables that the token helpers and the routers read.
use mock_idp.Common.{String, List}
use mock_idp.Dict.{Dict}
use mock_idp.Models.{UserRecord, ServicePrincipalRecord, ClientAppRecord, WebhookConfig}

pub record Config : Type 0 where
  pub iss_base : String
  pub users : Dict UserRecord
  pub service_principals : Dict ServicePrincipalRecord
  pub service_principals_raw : Dict ServicePrincipalRecord
  pub client_apps : Dict ClientAppRecord
  pub issuer_modes : Dict String
  pub mode : String
  pub admin_token : String
  pub cors_origins : List String
  pub webhooks : List WebhookConfig
