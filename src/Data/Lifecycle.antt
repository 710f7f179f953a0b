-- ===== src/Data/Lifecycle.antt =====
-- The operations through which the server changes stored requests, and what holds after any
-- sequence of them. A panic ends the process and keeps what was committed; the next operation then
-- runs on the database as it was left.
pub mod Invariants
pub mod Closed
pub mod Tries
pub mod Origin
use unify_em.Base.{ℕ, String, Bool, Option, List, [], ◌∷◌, Exec, ◌>>=◌, ◌>>◌, pure}
use unify_em.Schema.{AgentRequest}
use unify_em.Bolt.{Bolt}
use unify_em.Db.Bucket.{Db}
use unify_em.Db.Requests.{
  cancel_agent_request, cancel_agent_requests, delete_agent_request, prune_agent_requests,
}
use unify_em.Db.Prune.{prune_agents}
use unify_em.Data.Config.{ServerConfig}
use unify_em.Data.Dispatch.{Files, agent_requests, add_agent_request}
use unify_em.Data.Sync.{SyncData, sync, agent_delete}

pub record Server : Type 0 where
  pub conf : ServerConfig
  pub files : Files
  pub decrypt : String → String → Option String

-- Each with the time that it runs at, and the UUID that it draws where it draws one.
pub data Operation : Type 0 where
  add : ℕ → String → AgentRequest → Operation
  dispatch : ℕ → Bool → String → Operation
  process : ℕ → String → SyncData → Operation
  cancel : ℕ → String → Operation
  cancel_all : ℕ → String → Operation
  delete_request : String → Operation
  delete_agent : String → Operation
  prune_requests : ℕ → ℕ → Operation
  prune_inactive : ℕ → ℕ → Operation

module _ ⦃B : Bolt⦄ (server : Server) where
  -- The database after one operation, however it ended.
  unfoldable pub step : Operation → Db → Db
  step (add now fresh r) d = (add_agent_request now fresh r d).1
  step (dispatch now mark_sent id) d =
      (agent_requests server.files server.conf now mark_sent id d).1
  step (process now fresh s) d = (sync now fresh server.decrypt server.conf s d).1
  step (cancel now key) d = (cancel_agent_request now key d).1
  step (cancel_all now id) d = (cancel_agent_requests now id d).1
  step (delete_request key) d = (delete_agent_request key d).1
  step (delete_agent id) d = (agent_delete id d).1
  step (prune_requests now days) d = (prune_agent_requests now days d).1
  step (prune_inactive now days) d = (prune_agents now days d).1

  unfoldable pub run : List Operation → Db → Db
  unfolding step
  run [] d = d
  run (op ∷ ops) d = run ops (step op d)
