-- ===== src/Auth.antt =====
-- deploy/kong-production-standby/auth-middleware: the service behind the private standby routes.
pub mod BodyLimit
pub mod Failure
pub mod Identity
pub mod Store
pub mod Command
pub mod Webhook
mod Tests
