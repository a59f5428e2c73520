-- ===== src/Nats.antt =====
-- scripts/check-nats-authorization.py: the NATS permissions that the contract
-- clavenar.nats-authorization/v1 grants, and the check that the chart carries exactly those.
pub mod Permissions
pub mod Documents
pub mod Repository
pub mod Sync
