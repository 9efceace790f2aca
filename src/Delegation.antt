-- ===== src/Delegation.antt =====
-- app/delegation: credentials and their chains, and the service that decides on a delegation.
pub mod Capabilities
pub mod Credential
pub mod Branch
pub mod Service
