-- ===== src/Data.antt =====
-- server/data: the layer between the API's handlers and the database.
pub mod Config
pub mod Dispatch
pub mod Sync
pub mod Token
pub mod Register
pub mod Users
pub mod Prune
pub mod Lifecycle
