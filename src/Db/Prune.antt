-- ===== src/Db/Prune.antt =====
-- server/db/agentPrune.go.
pub mod Keeps
use unify_em.Base.{
  ℕ, String, Bool, true, false, if◌then◌else◌, Exec, ◌>>=◌, ◌>>◌, pure, wrapping, ignore,
}
use unify_em.Schema.{AgentMeta}
use unify_em.Bolt.{Bolt}
use unify_em.Db.Bucket.{Db, Stored, decodes, garbage, agent_meta_bucket, delete_data, for_each, log}
use unify_em.Db.Requests.{delete_agent_requests, older_than, logged}
use unify_em.Db.Events.{delete_all_events}

module _ ⦃B : Bolt⦄ where
  -- The callback of PruneAgents.
  prune_agent : ℕ → ℕ → String → Stored AgentMeta → Unit {0} → Exec Db (Unit {0})
  prune_agent now days key (decodes meta) _ =
      if older_than meta.last_seen now days
      then (do
        ignore (delete_agent_requests meta.agent_id)
        ignore (delete_all_events meta.agent_id)
        logged (delete_data agent_meta_bucket key))
      else pure tt
  prune_agent now days key garbage _ = do log; ignore (delete_data agent_meta_bucket key)

  unfoldable pub prune_agents : ℕ → ℕ → Exec Db (Unit {0})
  unfolding prune_agent for_each
  prune_agents now days = wrapping (for_each agent_meta_bucket (prune_agent now days) tt)
