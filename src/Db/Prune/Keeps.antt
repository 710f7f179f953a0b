-- ===== src/Db/Prune/Keeps.antt =====
-- An invariant of the stored requests through PruneAgents.
use unify_em.Base.{ℕ, String, refl}
use unify_em.Base.Ensures.{
  Ensures, Always, Ensures-pure, Ensures-bind, Ensures-if, Ensures-wrapping, Ensures-ignore,
  Ensures-attempt,
}
use unify_em.Schema.{AgentMeta, AgentRequestRecord}
use unify_em.Bolt.{Bolt}
use unify_em.Db.Bucket.{
  Db, Stored, decodes, garbage, agent_meta_bucket, requests_bucket, delete_data,
}
use unify_em.Db.Bucket.Every.{for_each-Keeps, delete_data_apart}
use unify_em.Db.Requests.{older_than}
use unify_em.Db.Requests.Keeps.{AllRequests, AllowsTouch, Keyed, delete_all-Keeps, log-Keeps}
use unify_em.Db.Events.Frame.{delete_events-Frame}
use unify_em.Db.Prune.{prune_agent, prune_agents}

module _ ⦃B : Bolt⦄ (Q : AgentRequestRecord → Type 0) (allows : AllowsTouch Q) where
  delete_meta-Keeps :
      (key : String)
      → Ensures Db (Unit {0}) (AllRequests Q) Always (delete_data agent_meta_bucket key)
  delete_meta-Keeps key =
      delete_data_apart requests_bucket (Keyed Q) agent_meta_bucket (λ b d. refl) key

  agent-Keeps :
      (now days : ℕ) (key : String) (v : Stored AgentMeta) (acc : Unit {0})
      → Always acc
      → Ensures Db (Unit {0}) (AllRequests Q) Always (prune_agent now days key v acc)
  unfolding prune_agent
  agent-Keeps now days key (decodes meta) acc _ =
      Ensures-if (older_than meta.last_seen now days) _ _
        (λ _. Ensures-bind _ _ (Ensures-ignore _ (delete_all-Keeps Q allows meta.agent_id)) λ _ _.
          Ensures-bind _ _
            (Ensures-ignore _
              (delete_events-Frame requests_bucket (Keyed Q) (λ p d. refl) meta.agent_id))
            λ _ _.
              Ensures-bind _ _ (Ensures-attempt _ (delete_meta-Keeps key))
                (λ _ _. log-Keeps Q allows))
        (λ _. Ensures-pure tt tt)
  agent-Keeps now days key garbage acc _ =
      Ensures-bind _ _ (log-Keeps Q allows) (λ _ _. Ensures-ignore _ (delete_meta-Keeps key))

  pub prune_agents-Keeps :
      (now days : ℕ) → Ensures Db (Unit {0}) (AllRequests Q) Always (prune_agents now days)
  unfolding prune_agents
  prune_agents-Keeps now days = Ensures-wrapping _ (
      for_each-Keeps (AllRequests Q) Always (prune_agent now days) (agent-Keeps now days)
        agent_meta_bucket tt tt)
