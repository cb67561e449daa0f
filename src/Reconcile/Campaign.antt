-- ===== src/Reconcile/Campaign.antt =====
-- reconcile_kong_campaign_automation.py, and the key that its tokens are signed with.
pub mod Manifest
pub mod Parties
pub mod Guard
pub mod Admits
pub mod Entities
pub mod Run
pub mod DryRun
mod Tests
