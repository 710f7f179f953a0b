-- ===== src/Db/Requests/Prunes.antt =====
-- PruneAgentRequests on a database from Open, which has no logger.
use unify_em.Base.{
  ℕ, String, ◌≡◌, refl, Option, none, Bool, true, false, some, ok, err, panic, ◌||◌, if◌then◌else◌,
  Outcome, resume, inl, inr, Dict, [], ◌∷◌, Exec, Bool-cases, is_some,
}
use unify_em.Schema.{AgentRequestRecord}
use unify_em.Bolt.{Bolt}
use unify_em.Db.Bucket.{
  Db, Stored, decodes, garbage, requests_bucket, delete_data, deleted, committed, visit,
  visit_bucket, for_each, log, open_db, or_empty,
}
use unify_em.Db.Requests.{logged, prune_request, prune_agent_requests, unix_before}

-- Whether the callback has something to log of an entry, and of one of a list.
abbrev pub is_due : ℕ → ℕ → Stored AgentRequestRecord → Bool
is_due now days (decodes r) = unix_before r.last_updated now days
is_due now days garbage = true

abbrev pub any_due : ℕ → ℕ → Dict (Stored AgentRequestRecord) → Bool
any_due now days [] = false
any_due now days ((key, v) ∷ rest) = is_due now days v || any_due now days rest

module _ ⦃B : Bolt⦄ where
  committed_quiet :
      (d : Db) (o : Option (B.Bucket (Stored AgentRequestRecord)))
      → d.has_logger ≡ false
      → (logged (λ _. committed requests_bucket d o) d).0 ≡ panic
  unfolding log
  committed_quiet d none h = rw h
  committed_quiet d (some b) h = rw h

  deleted_quiet :
      (key : String) (d : Db) (o : Option (B.Bucket (Stored AgentRequestRecord)))
      → d.has_logger ≡ false
      → (logged (λ _. deleted requests_bucket key d o) d).0 ≡ panic
  unfolding log
  deleted_quiet key d none h = rw h
  deleted_quiet key d (some b) h = elim (Bool-cases (is_some (B.get b key))) [
    | inl e ↦ rw e (committed_quiet d (B.delete b key) h)
    | inr e ↦ rw (e, h)
  ]

  due_panics :
      (now days : ℕ) (key : String) (v : Stored AgentRequestRecord) (d : Db)
      → d.has_logger ≡ false
      → is_due now days v ≡ true
      → (prune_request now days key v tt d).0 ≡ panic
  unfolding prune_request log delete_data
  due_panics now days key (decodes r) d h e = rw e (deleted_quiet key d d.requests h)
  due_panics now days key garbage d h e = rw h

  not_due_passes :
      (now days : ℕ) (key : String) (v : Stored AgentRequestRecord) (d : Db)
      → is_due now days v ≡ false
      → prune_request now days key v tt d ≡ (ok tt, d)
  unfolding prune_request
  not_due_passes now days key (decodes r) d e = rw e
  not_due_passes now days key garbage d e = cc

  resume-panic :
      {A C : Type 0} (f : A → Exec Db C) (p : Outcome A × Db) → p.0 ≡ panic → (resume f p).0 ≡ panic
  resume-panic f (ok a, s) h = cc
  resume-panic f (err e, s) h = cc
  resume-panic f (panic, s) h = refl

  visit_quiet :
      (now days : ℕ) (m : Dict (Stored AgentRequestRecord)) (d : Db)
      → d.has_logger ≡ false
      → (visit (prune_request now days) tt m d).0 ≡ (if any_due now days m then panic else ok tt)
  unfolding visit
  visit_quiet now days [] d h = refl
  visit_quiet now days ((key, v) ∷ rest) d h = elim (Bool-cases (is_due now days v)) [
    | inl e ↦
        rw e (resume-panic _ (prune_request now days key v tt d) (due_panics now days key v d h e))
    | inr e ↦ rw (e, not_due_passes now days key v d e) (visit_quiet now days rest d h)
  ]

  -- On a database that Open returned, PruneAgentRequests panics exactly if a stored request is due to be
  -- pruned or cannot be decoded: the callback logs through a logger that Open never sets.
  pub prune-open_db :
      (now days : ℕ) (file : Db)
      → (prune_agent_requests now days (open_db file)).0
        ≡ (if any_due now days (B.entries (or_empty file.requests)) then panic else ok tt)
  unfolding prune_agent_requests for_each visit_bucket open_db
  prune-open_db now days file =
      visit_quiet now days (B.entries (or_empty file.requests)) (open_db file) refl
