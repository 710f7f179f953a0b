-- ===== src/Data/Prune.antt =====
-- server/data/prune.go: the task that prunes the database. An error of one part is logged, and the
-- next part runs; a panic ends the task.
use unify_em.Base.{ℕ, if◌then◌else◌, ltb, Exec, ◌>>◌, pure, ignore}
use unify_em.Bolt.{Bolt}
use unify_em.Db.Bucket.{Db}
use unify_em.Db.Requests.{prune_agent_requests}
use unify_em.Db.Prune.{prune_agents}
use unify_em.Db.Events.Prune.{prune_events}
use unify_em.Data.Config.{ServerConfig}

module _ ⦃B : Bolt⦄ where
  -- One part, unless its retention is 0.
  abbrev pub prune_part : ℕ → (ℕ → Exec Db (Unit {0})) → Exec Db (Unit {0})
  prune_part days prune = if ltb 0 days then ignore (prune days) else pure tt

  unfoldable pub prune_db : ServerConfig → ℕ → Exec Db (Unit {0})
  prune_db conf now = do
    prune_part conf.agent_retention (prune_agents now)
    prune_part conf.request_retention (prune_agent_requests now)
    prune_part conf.event_retention (prune_events now)
