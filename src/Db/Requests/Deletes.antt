-- ===== src/Db/Requests/Deletes.antt =====
-- CancelAgentRequest and DeleteAgentRequests, read key by key.
use mathlib.Core.Path.{subst}
use unify_em.Base.{
  ℕ, String, ◌≡◌, refl, sym, ap, ◌∙◌, Option, none, Bool, true, false, some, ok, ◌==◌, ◌&&◌,
  if◌then◌else◌, wrapped, ◌⊎◌, inl, inr, eq_iff, eq_refl, Dict, lookup, [], ◌∷◌, Bool-cases,
  some_inj,
}
use unify_em.Base.Inversion.{resume-ok, resume-eq-ok, wrapped-eq-ok}
use unify_em.Schema.{AgentRequestRecord, cancelled}
use unify_em.Bolt.{Bolt}
use unify_em.Db.Bucket.{
  Db, Stored, decodes, garbage, requests_bucket, get_data, set_data, delete_data, visit,
  visit_bucket, for_each,
}
use unify_em.Db.Bucket.Laws.{
  stored_at, found, is_ok, stored_at-set_data, stored_at-delete_data, found-fetched,
}
use unify_em.Db.Bucket.Every.{Every}
use unify_em.Db.Requests.{
  set_agent_request, cancel_agent_request, is_open, delete_own, delete_agent_requests,
}

module _ ⦃B : Bolt⦄ (now : ℕ) (key : String) (r : AgentRequestRecord) (d : Db) where
  abbrev after_cancel : AgentRequestRecord
  after_cancel = record r { status = cancelled; last_updated = now }

  stores :
      r.agent_id == "" ≡ false
      → r.request_id == "" ≡ false
      → set_agent_request now (record r { status = cancelled }) d ≡ (
        wrapped (set_data requests_bucket r.request_id after_cancel d).0,
        (set_data requests_bucket r.request_id after_cancel d).1,
      )
  unfolding set_agent_request
  stores a k = rw (a, k)

  -- A cancel that succeeds, of a request that is stored under its own ID and names an agent, leaves
  -- it cancelled, with the time of the cancel, where it was still open, and as it was where it was
  -- closed; all other requests stay as they were.
  pub cancel_lem :
      stored_at requests_bucket d key ≡ some (decodes r)
      → r.request_id ≡ key
      → r.agent_id == "" ≡ false
      → r.request_id == "" ≡ false
      → (cancel_agent_request now key d).0 ≡ ok tt
      → (j : String)
      → stored_at requests_bucket (cancel_agent_request now key d).1 j ≡ (
          if is_open r.status && key == j
          then some (decodes (record r { status = cancelled; last_updated = now }))
          else stored_at requests_bucket d j)
  unfolding cancel_agent_request get_data
  cancel_lem h same a k done j = elim (Bool-cases (is_open r.status)) [
    | inl o ↦
        let e : (set_data requests_bucket r.request_id after_cancel d).0 ≡ ok tt =
          wrapped-eq-ok _ (rw (found-fetched d.requests key h, o, stores a k) at done) in
        rw (found-fetched d.requests key h, o, stores a k)
          (stored_at-set_data requests_bucket r.request_id after_cancel d j ∙ rw (e, same) refl)
    | inr o ↦ rw (found-fetched d.requests key h, o) refl
  ]

module _ ⦃B : Bolt⦄ (id : String) where
  -- Each stored request is kept or deleted.
  abbrev Shrinks : Db → Db → Type 0
  Shrinks d d' =
      (j : String)
      → (stored_at requests_bucket d' j ≡ stored_at requests_bucket d j)
        ⊎ (stored_at requests_bucket d' j ≡ none)

  abbrev Cleared : Dict (Stored AgentRequestRecord) → Db → Type 0
  Cleared m d' =
      (j : String) (r : AgentRequestRecord)
      → lookup j m ≡ some (decodes r)
      → r.agent_id == id ≡ true
      → stored_at requests_bucket d' j ≡ none

  deleted-Shrinks : (key : String) (d : Db) → Shrinks d (delete_data requests_bucket key d).1
  deleted-Shrinks key d j =
      elim (Bool-cases (is_ok (delete_data requests_bucket key d).0 && key == j)) [
        | inl e ↦ inr (stored_at-delete_data requests_bucket key d j ∙ rw e refl)
        | inr e ↦ inl (stored_at-delete_data requests_bucket key d j ∙ rw e refl)
      ]

  Shrinks-trans : (d e f : Db) → Shrinks d e → Shrinks e f → Shrinks d f
  Shrinks-trans d e f h k j = elim (k j) [
    | inr gone ↦ inr gone
    | inl same ↦ elim (h j) [ inl before ↦ inl (same ∙ before) | inr gone ↦ inr (same ∙ gone) ]
  ]

  gone_stays :
      (d e : Db) (j : String)
      → Shrinks d e
      → stored_at requests_bucket d j ≡ none
      → stored_at requests_bucket e j ≡ none
  gone_stays d e j h gone = elim (h j) [ inl same ↦ same ∙ gone | inr g ↦ g ]

  one_step :
      (key : String) (v : Stored AgentRequestRecord) (d : Db)
      → (delete_own id key v tt d).0 ≡ ok tt
      → Shrinks d (delete_own id key v tt d).1
        × ((r : AgentRequestRecord)
            → v ≡ decodes r
            → r.agent_id == id ≡ true
            → stored_at requests_bucket (delete_own id key v tt d).1 key ≡ none)
  unfolding delete_own
  one_step key (decodes q) d h = elim (Bool-cases (q.agent_id == id)) [
    | inl own ↦
        let e : (delete_data requests_bucket key d).0 ≡ ok tt = wrapped-eq-ok _ (rw own at h) in
        rw own (
          deleted-Shrinks key d,
          λ r same mine. stored_at-delete_data requests_bucket key d key ∙ rw (e, eq_refl) refl,
        )
    | inr other ↦ rw other (λ j. inl refl, λ r same mine. cc (mine, other, ap owner same))
  ]
    where
      owner : Stored AgentRequestRecord → Bool
      owner (decodes x) = x.agent_id == id
      owner garbage = false
  one_step key garbage d h = cc

  all_steps :
      (m : Dict (Stored AgentRequestRecord)) (d : Db)
      → (visit (delete_own id) tt m d).0 ≡ ok tt
      → Shrinks d (visit (delete_own id) tt m d).1 × Cleared m (visit (delete_own id) tt m d).1
  unfolding visit
  all_steps [] d h = (λ j. inl refl, λ j r e mine. cc)
  all_steps ((key, v) ∷ rest) d h =
      let p = delete_own id key v tt d in
      let (u, e, r) = resume-eq-ok _ p h in
      let one = one_step key v d e in
      let later = all_steps rest p.1 r in
      let end = (visit (delete_own id) tt rest p.1).1 in
      rw (resume-ok (λ a. visit (delete_own id) a rest) p e) (
        Shrinks-trans d p.1 end one.0 later.0,
        λ j q l mine. elim (Bool-cases (key == j)) [
          | inl same ↦ gone_stays p.1 end j later.0 (
              subst (λ k. stored_at requests_bucket p.1 k ≡ none) ((eq_iff key j).0 same)
                (one.1 q (some_inj (rw same at l)) mine))
          | inr differ ↦ later.1 j q (rw differ at l) mine
        ],
      )

  cleared-Every :
      (d : Db) (b : B.Bucket (Stored AgentRequestRecord))
      → d.requests ≡ some b
      → (visit (delete_own id) tt (B.entries b) d).0 ≡ ok tt
      → Every requests_bucket
          (λ key r. r.agent_id == id ≡ false)
          (visit (delete_own id) tt (B.entries b) d).1
  cleared-Every d b e h key r at_key = elim (Bool-cases (r.agent_id == id)) [
    | inr other ↦ other
    | inl own ↦
        let (shrinks, cleared) = all_steps (B.entries b) d h in
        elim (shrinks key) [
          | inr gone ↦ cc (gone, at_key)
          | inl same ↦
              let was : lookup key (B.entries b) ≡ some (decodes r) =
                B.lookup-entries _ b key ∙ sym (ap (λ o. found o key) e) ∙ sym same ∙ at_key in
              cc (cleared key r was own, at_key)
        ]
  ]

  visited-Every :
      (d : Db) (o : Option (B.Bucket (Stored AgentRequestRecord)))
      → d.requests ≡ o
      → (visit_bucket (delete_own id) tt o d).0 ≡ ok tt
      → Every requests_bucket
          (λ key r. r.agent_id == id ≡ false)
          (visit_bucket (delete_own id) tt o d).1
  unfolding visit_bucket
  visited-Every d none e h = cc
  visited-Every d (some b) e h = cleared-Every d b e h

  -- After a DeleteAgentRequests that succeeds no request of the agent is stored.
  pub delete_agent_requests_lem :
      (d : Db)
      → (delete_agent_requests id d).0 ≡ ok tt
      → Every requests_bucket (λ key r. r.agent_id == id ≡ false) (delete_agent_requests id d).1
  unfolding delete_agent_requests for_each
  delete_agent_requests_lem d h = visited-Every d d.requests refl h
