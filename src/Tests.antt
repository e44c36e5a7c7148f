-- ===== src/Tests.antt =====
-- The theorems at concrete inputs, and runs of the definitions.
mod Services
mod Tokens
mod Limits
mod Scripts
mod Checks
mod Stacks
mod Handlers
mod Setups
mod Utilities
mod Finance
mod Environments
mod Calls
mod Sessions
