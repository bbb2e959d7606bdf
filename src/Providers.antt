-- ===== src/Providers.antt =====
-- src/mock_idp/providers: the claims that each identity provider puts into a token.
pub mod Common
pub mod EntraId
pub mod Okta
pub mod Cognito
pub mod Keycloak
pub mod Registry
pub mod Timed
pub mod Subject
