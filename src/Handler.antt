-- ===== src/Handler.antt =====
-- src/mock_idp/token_handler.py: the handlers of the token, introspection, user info, discovery and
-- JWKS requests, with the two helpers that raise or wait before a request is processed.
pub mod Context
pub mod Hooks
pub mod Issue
pub mod Grants
pub mod Token
pub mod BadTokens
pub mod Introspect
pub mod Discovery
pub mod Keeps
