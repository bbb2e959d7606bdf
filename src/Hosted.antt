-- ===== src/Hosted.antt =====
-- src/mock_idp/routers/hosted.py: the routes of an organisation.
pub mod Context
pub mod Sandbox
pub mod Token
pub mod Other
