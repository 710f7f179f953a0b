-- ===== src/Db/Requests/Writes.antt =====
-- SetAgentRequest, read key by key.
use unify_em.Base.{
  ℕ, String, ◌≡◌, refl, ◌∙◌, some, ok, err, ◌==◌, if◌then◌else◌, Bool-cases, inl, inr,
}
use unify_em.Base.Inversion.{wrapped-eq-ok}
use unify_em.Schema.{AgentRequestRecord}
use unify_em.Bolt.{Bolt}
use unify_em.Db.Bucket.{Db, decodes, requests_bucket, set_data}
use unify_em.Db.Bucket.Laws.{stored_at, stored_at-set_data}
use unify_em.Db.Requests.{set_agent_request}

module _ ⦃B : Bolt⦄ where
  -- A SetAgentRequest that succeeds wrote the record, with the time of the write, under its request ID,
  -- and nothing under another.
  pub stored_at-set_agent_request :
      (now : ℕ) (r : AgentRequestRecord) (d : Db) (j : String)
      → (set_agent_request now r d).0 ≡ ok tt
      → stored_at requests_bucket (set_agent_request now r d).1 j ≡ (
          if r.request_id == j
          then some (decodes (record r { last_updated = now }))
          else stored_at requests_bucket d j)
  unfolding set_agent_request
  stored_at-set_agent_request now r d j h = elim (Bool-cases (r.agent_id == "")) [
    | inl e ↦ cc (let g : err _ ≡ ok tt = rw e at h in g)
    | inr e ↦ elim (Bool-cases (r.request_id == "")) [
      | inl f ↦ cc (let g : err _ ≡ ok tt = rw (e, f) at h in g)
      | inr f ↦
          let touched : AgentRequestRecord = record r { last_updated = now } in
          let w = set_data requests_bucket r.request_id touched d in
          let done : w.0 ≡ ok tt = wrapped-eq-ok w.0 (rw (e, f) at h) in
          rw (e, f) (stored_at-set_data requests_bucket r.request_id touched d j ∙ rw done refl)
    ]
  ]
