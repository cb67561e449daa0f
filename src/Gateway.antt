-- ===== src/Gateway.antt =====
-- scripts/gateway_integrations.py: the contract of an integration, its routes and the compiler.
pub mod Paths
pub mod Overlap
pub mod Document
pub mod Hostname
pub mod Checks
pub mod Validate
pub mod Set
mod Tests
