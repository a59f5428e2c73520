-- ===== src/Readiness.antt =====
-- scripts/check_dependency_readiness.py: the contract clavenar.dependency-readiness/v1 in the Helm
-- renders: probes, startup gates, readiness URLs, Service ports and NetworkPolicy callers.
pub mod Endpoint
pub mod Contract
pub mod Documents
pub mod Target
pub mod Application
pub mod Case
pub mod Main
