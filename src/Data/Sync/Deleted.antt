-- ===== src/Data/Sync/Deleted.antt =====
-- AgentDelete.
use unify_em.Base.{String, ◌≡◌, refl, ◌∙◌, none, false, ok, ◌==◌, ignore, eq_refl, Exec, ◌>>◌}
use unify_em.Base.Inversion.{resume-ok, resume-eq-ok, wrapped-eq-ok}
use unify_em.Base.Ensures.{Ensures-ignore}
use unify_em.Schema.{AgentRequestRecord}
use unify_em.Bolt.{Bolt}
use unify_em.Db.Bucket.{Db, requests_bucket, agent_meta_bucket, delete_data}
use unify_em.Db.Bucket.Laws.{stored_at, stored_at-delete_data}
use unify_em.Db.Bucket.Every.{Every}
use unify_em.Db.Keys.{validate_key}
use unify_em.Db.Requests.{delete_agent_requests}
use unify_em.Db.Requests.Deletes.{delete_agent_requests_lem}
use unify_em.Db.Agents.{delete_agent_meta}
use unify_em.Db.Agents.Frame.{delete_agent_meta-Frame}
use unify_em.Db.Events.{delete_all_events}
use unify_em.Db.Events.Frame.{delete_events-Frame}
use unify_em.Data.Sync.{agent_delete}

module _ ⦃B : Bolt⦄ (id : String) where
  meta_gone :
      (d : Db)
      → (delete_agent_meta id d).0 ≡ ok tt
      → stored_at agent_meta_bucket (delete_agent_meta id d).1 (validate_key id) ≡ none
  unfolding delete_agent_meta
  meta_gone d h =
      stored_at-delete_data agent_meta_bucket (validate_key id) d (validate_key id)
      ∙ rw (wrapped-eq-ok (delete_data agent_meta_bucket (validate_key id) d).0 h, eq_refl) refl

  -- An AgentDelete that succeeds leaves no request of the agent and no metadata of it.
  pub agent_delete_lem :
      (d : Db)
      → (agent_delete id d).0 ≡ ok tt
      → Every requests_bucket (λ key r. r.agent_id == id ≡ false) (agent_delete id d).1
        × (stored_at agent_meta_bucket (agent_delete id d).1 (validate_key id) ≡ none)
  unfolding agent_delete
  agent_delete_lem d h =
      let f : Unit {0} → Exec Db (Unit {0}) = λ _. delete_agent_meta id in
      let g : Unit {0} → Exec Db (Unit {0}) =
        λ _. ignore (delete_all_events id) >> delete_agent_meta id in
      let p = delete_agent_requests id d in
      let s = ignore (delete_all_events id) p.1 in
      let (u, e, r) = resume-eq-ok g p h in
      let (v, e', r') = resume-eq-ok f s r in
      let Q : String → AgentRequestRecord → Type 0 = λ key r. r.agent_id == id ≡ false in
      let kept : Every requests_bucket Q (f tt s.1).1 =
        ((delete_agent_meta-Frame requests_bucket Q (λ b d. refl) id).at s.1
          ((Ensures-ignore _ (delete_events-Frame requests_bucket Q (λ p d. refl) id)).at p.1
            (delete_agent_requests_lem id d e)).0).0 in
      rw (resume-ok g p e, resume-ok f s e') (kept, meta_gone s.1 r')
