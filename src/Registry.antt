-- ===== src/Registry.antt =====
-- app/registry: the decision on the capabilities of a new agent.
pub mod Policy
pub mod Routes
pub mod Bootstrap
