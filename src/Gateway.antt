-- ===== src/Gateway.antt =====
-- app/gateway/routes.py: who calls, and what is recorded of it.
pub mod Bearer
pub mod Context
pub mod Server
pub mod Decisions
pub mod Audited
pub mod Forward
pub mod Checks
pub mod Agent
pub mod Root
