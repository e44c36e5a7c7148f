-- ===== src/Itestkit.antt =====
-- itestkit: the SQL splitter, the options, and the stack of containers under test.
pub mod Sqlrunner
pub mod Options
pub mod Validation
pub mod Files
pub mod Outside
pub mod Setup
pub mod Docker
pub mod Names
pub mod Services
pub mod Stack
pub mod Config
pub mod Environment
pub mod Identifiers
pub mod Debug
pub mod Redisjson
pub mod Networks
