-- ===== src/Tests.antt =====
-- Runs of the three scripts' models on small inputs.
pub mod Ledger
pub mod Listener
pub mod Nats
pub mod Readiness
pub mod Vault
pub mod Assurance
pub mod Brain
pub mod Console
pub mod Capabilities
pub mod Main
pub mod Validate
pub mod Sync
