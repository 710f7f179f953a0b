-- ===== src/Examples.antt =====
-- The theorems of the library applied at concrete inputs.
pub mod Fixtures
pub mod KnownTokens
mod Commands
mod Requests
mod Answers
mod Accounts
mod Tokens
mod Users
mod Access
mod AgentRun
mod Events
mod Settings
mod Rounds
mod Stores
mod Handlers
mod Hashes
