-- ===== src/Store.antt =====
-- app/store: one module for each table.
pub mod DidRegistry
pub mod Credentials
pub mod Agents
pub mod Chain
pub mod Audit
pub mod Tokens
pub mod IntentTree
pub mod Policies
pub mod AuthEvents
