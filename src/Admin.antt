-- ===== src/Admin.antt =====
-- scripts/kong_admin_channel.py: the private channel to Kong's Admin API.
pub mod Program
pub mod Rows
pub mod Channel
mod Tests
