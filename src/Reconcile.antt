-- ===== src/Reconcile.antt =====
-- The reconcilers under scripts/: a reviewed manifest against a running Kong, read-only or applied.
pub mod Client
pub mod Fields
pub mod Reads
pub mod Guard
pub mod Plugins
pub mod ControlPlane
pub mod Key
pub mod Campaign
pub mod Callback
mod Tests
