-- ===== src/Runtime.antt =====
-- app/runtime: the running tasks.
pub mod Tasks
