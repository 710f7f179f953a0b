-- ===== src/Db/Agents/Frame.antt =====
-- The operations on agents and their events leave the other buckets alone.
use unify_em.Base.{ℕ, String, Result, value, error, root_cause}
use unify_em.Base.Ensures.{
  Ensures, Always, Always-ok, Ensures-pure, Ensures-bind, Ensures-raise, Ensures-if,
  Ensures-wrapping, Ensures-attempt,
}
use unify_em.Schema.{AgentMeta, AgentStatus, AgentTriggers}
use unify_em.Bolt.{Bolt}
use unify_em.Db.Bucket.{Db, Slot, agent_meta_bucket, get_data}
use unify_em.Db.Bucket.Every.{Every, set_data_apart, delete_data_apart, Apart}
use unify_em.Db.Keys.{validate_key}
use unify_em.Db.Agents.{
  set_agent_meta, get_agent_meta, delete_agent_meta, or_create, get_or_create_agent_meta, sync_meta,
  agent_sync, update_agent_status, is_not_found,
}

module _ ⦃B : Bolt⦄ {V : Type 0} (s : Slot V) (Q : String → V → Type 0)
    (apart : Apart s Q agent_meta_bucket) where
  pub set_agent_meta-Frame :
      (meta : AgentMeta) → Ensures Db (Unit {0}) (Every s Q) Always (set_agent_meta meta)
  unfolding set_agent_meta
  set_agent_meta-Frame meta =
      Ensures-wrapping _
        (set_data_apart s Q agent_meta_bucket apart (validate_key meta.agent_id) meta)

  pub delete_agent_meta-Frame :
      (id : String) → Ensures Db (Unit {0}) (Every s Q) Always (delete_agent_meta id)
  unfolding delete_agent_meta
  delete_agent_meta-Frame id =
      Ensures-wrapping _ (delete_data_apart s Q agent_meta_bucket apart (validate_key id))

  pub get_agent_meta-Frame :
      (id : String) → Ensures Db AgentMeta (Every s Q) Always (get_agent_meta id)
  unfolding get_agent_meta get_data
  get_agent_meta-Frame id = record { at = λ d h. (h, Always-ok _) }

  pub update_agent_status-Frame :
      (now : ℕ) (id : String) (st : AgentStatus)
      → Ensures Db (Unit {0}) (Every s Q) Always (update_agent_status now id st)
  unfolding update_agent_status
  update_agent_status-Frame now id st =
      Ensures-bind _ _ (Ensures-wrapping _ (get_agent_meta-Frame id))
        (λ meta _. Ensures-wrapping _ (set_agent_meta-Frame _))

  or_create-Frame :
      (now : ℕ) (id : String) (r : Result AgentMeta)
      → Ensures Db AgentMeta (Every s Q) Always (or_create now id r)
  unfolding or_create
  or_create-Frame now id (value meta) = Ensures-pure meta tt
  or_create-Frame now id (error e) =
      Ensures-if (is_not_found (root_cause e)) _ _ (λ _. Ensures-pure _ tt) (λ _. Ensures-raise e)

  sync_meta-Frame :
      (now : ℕ) (ip version : String) (build : ℕ) (r : Result AgentMeta)
      → Ensures Db
          (AgentTriggers × Result (Unit {0}))
          (Every s Q)
          Always
          (sync_meta now ip version build r)
  unfolding sync_meta
  sync_meta-Frame now ip version build (error e) = Ensures-pure _ tt
  sync_meta-Frame now ip version build (value meta) =
      Ensures-bind _ _ (Ensures-attempt _ (set_agent_meta-Frame _)) (λ _ _. Ensures-pure _ tt)

  pub agent_sync-Frame :
      (now : ℕ) (id ip version : String) (build : ℕ)
      → Ensures Db
          (AgentTriggers × Result (Unit {0}))
          (Every s Q)
          Always
          (agent_sync now id ip version build)
  unfolding agent_sync get_or_create_agent_meta
  agent_sync-Frame now id ip version build =
      Ensures-bind _ _
        (Ensures-attempt _ (
          Ensures-bind _ _ (Ensures-attempt _ (get_agent_meta-Frame id))
            (λ r _. or_create-Frame now id r)))
        (λ r _. sync_meta-Frame now ip version build r)
