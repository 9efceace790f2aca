-- ===== src/Tests.antt =====
-- Concrete inputs of the program and the theorems on them.
pub mod Fixtures
mod Delegation
mod Gateway
mod Identity
mod Store
mod Tokens
pub mod Intent
mod Registry
mod Routes
mod Models
