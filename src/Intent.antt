-- ===== src/Intent.antt =====
-- app/intent: the signed nodes of an intent tree and their validation.
pub mod Crypto
pub mod Branch
pub mod Service
pub mod Answer
pub mod Models
pub mod Generator
pub mod Judge
