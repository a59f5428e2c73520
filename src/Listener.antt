-- ===== src/Listener.antt =====
-- scripts/check-listener-matrix.py: the validation of rendered Services and NetworkPolicies
-- against charts/clavenar/listeners.yaml.
pub mod Values
pub mod Condition
pub mod Selectors
pub mod Format
pub mod Services
pub mod Policies
pub mod Peers
pub mod Profile
pub mod Errors
pub mod Rendered
pub mod Environments
pub mod Workload
pub mod Assurance
pub mod Brain
pub mod Console
pub mod Capabilities
pub mod Ledger
pub mod Vault
pub mod Digest
pub mod Validate
pub mod Main
