-- ===== src/Store.antt =====
-- src/mock_idp/store: the identity stores.
pub mod Yaml
pub mod Postgres
pub mod Running
