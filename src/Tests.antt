-- ===== src/Tests.antt =====
-- Runs of the model at concrete inputs.
pub mod Setup
mod Handlers
mod Issued
pub mod Databases
mod Logs
mod Backends
mod Registries
mod Organisations
mod Delegated
mod Races
mod Served
mod Verify
mod Helpers
mod Stores
