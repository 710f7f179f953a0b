-- ===== src/Api.antt =====
-- server/api: what stands between an HTTP request and the data layer.
pub mod Auth
pub mod Http
pub mod Agents
pub mod Requests
pub mod Commands
pub mod Users
pub mod Sessions
pub mod Settings
pub mod History
pub mod Routes
