-- ===== src/Identity.antt =====
-- app/identity: DIDs, their documents, signatures and tokens.
pub mod Did
pub mod Resolver
pub mod Crypto
pub mod Jwt
pub mod Document
pub mod Proof
pub mod Routes
