-- ===== src/Itestkit/Setup.antt =====
-- The phases of `StartStack` after the containers run, and the helpers for tests that they share.
pub mod Sql
pub mod Clients
pub mod Localstack
pub mod Plan
pub mod Phases
pub mod Laws
pub mod Refinement
