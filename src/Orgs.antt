-- ===== src/Orgs.antt =====
-- src/mock_idp/org_registry.py: the state of the organisations.
pub mod Keys
pub mod Registry
