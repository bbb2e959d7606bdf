-- ===== src/Tokens.antt =====
-- src/mock_idp/tokens.py: the helpers that both routers build a token with.
pub mod Resolve
pub mod Roles
pub mod Audience
pub mod Overrides
pub mod Redact
pub mod Signing
