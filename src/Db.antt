-- ===== src/Db.antt =====
-- server/db: the database of the server. Every operation takes the time that `time.Now` gives
-- during it, and is one transaction or a sequence of them; no other operation runs in between.
pub mod Bucket
pub mod Requests
pub mod Keys
pub mod Agents
pub mod Auth
pub mod Hash
pub mod Events
pub mod Prune
use unify_em.Base.{String}
