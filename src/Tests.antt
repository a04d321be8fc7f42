-- ===== src/Tests.antt =====
-- The theorems on concrete inputs.
mod Fixtures
mod Schedules
mod Access
mod Decisions
mod Tokens
mod Keypads
mod Confirmations
mod Operations
mod Repositories
