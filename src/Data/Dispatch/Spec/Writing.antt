-- ===== src/Data/Dispatch/Spec/Writing.antt =====
-- What the writes of a dispatch change in the bucket of requests.
use unify_em.Base.{
  ℕ, String, ◌≡◌, refl, ap, ◌∙◌, Bool, true, false, Option, none, some, List, [], ◌∷◌, ◌==◌,
  eq_refl, Dict, Bool-cases, Option-cases, inl, inr, All, is_some, ignore, resume, settle, pure,
  Outcome, ok, err, panic, Result, if◌then◌else◌, ◌&&◌,
}
use unify_em.Base.Inversion.{resume-ok}
use unify_em.Schema.{AgentRequest, AgentRequestRecord, invalid, complete, pending}
use unify_em.Bolt.{Bolt}
use unify_em.Commands.Validate.{Invalid, validate}
use unify_em.Db.Bucket.{Db, Stored, decodes, requests_bucket, set_data, committed, or_empty}
use unify_em.Db.Bucket.Laws.{stored_at, stored_at-set_data, is_ok}
use unify_em.Db.Requests.{set_agent_request}
use unify_em.Data.Config.{ServerConfig}
use unify_em.Data.Dispatch.{
  Files, selected, sent, with_hash, is_new, send_valid, send_checked, send, send_all,
}
use unify_em.Data.Dispatch.Spec.{send_lem, ignored, set_ends}

unless : {A : Type 0} (a b : Bool) (x y : A) → b ≡ false → (if a && b then x else y) ≡ y
unless true b x y h = rw h refl
unless false b x y h = refl

pub sent_not_new : (b : Bool) → is_new (if b then complete else pending) ≡ false
sent_not_new true = refl
sent_not_new false = refl

ignored_state :
    {S A : Type 0} (r : Outcome A) (s : S)
    → (resume (λ (_ : Result A). pure {A = Unit {0}} tt) (settle r, s)).1 ≡ s
ignored_state (ok a) s = refl
ignored_state (err e) s = refl
ignored_state panic s = refl

module _ ⦃B : Bolt⦄ where
  -- A write under this key never fails.
  abbrev pub Writes : String → Type 0
  Writes key =
      (b : B.Bucket (Stored AgentRequestRecord)) (v : Stored AgentRequestRecord)
      → is_some (B.put b key v) ≡ true

  set_apart :
      (now : ℕ) (r : AgentRequestRecord) (key : String) (d : Db)
      → (r.request_id == key) ≡ false
      → stored_at requests_bucket (set_agent_request now r d).1 key
        ≡ stored_at requests_bucket d key
  unfolding set_agent_request
  set_apart now r key d apart = elim (Bool-cases (r.agent_id == "")) [
    | inl e ↦ rw e refl
    | inr e ↦ elim (Bool-cases (r.request_id == "")) [
      | inl f ↦ rw (e, f) refl
      | inr f ↦
          rw (e, f)
            (stored_at-set_data requests_bucket r.request_id (record r { last_updated = now }) d key
              ∙ unless _ (r.request_id == key) _ _ apart)
    ]
  ]

  put_ok :
      (d : Db) (o : Option (B.Bucket (Stored AgentRequestRecord)))
      → is_some o ≡ true
      → is_ok (committed requests_bucket d o).0 ≡ true
  put_ok d none h = cc
  put_ok d (some b) h = refl

  set_ok :
      (key : String) (r : AgentRequestRecord) (d : Db)
      → Writes key
      → is_ok (set_data requests_bucket key r d).0 ≡ true
  unfolding set_data
  set_ok key r d writes = put_ok d _ (writes (or_empty d.requests) (decodes r))

  pub set_here :
      (now : ℕ) (r : AgentRequestRecord) (d : Db)
      → (r.agent_id == "") ≡ false
      → (r.request_id == "") ≡ false
      → Writes r.request_id
      → stored_at requests_bucket (set_agent_request now r d).1 r.request_id
        ≡ some (decodes (record r { last_updated = now }))
  unfolding set_agent_request
  set_here now r d a k writes =
      rw (a, k)
        (stored_at-set_data requests_bucket r.request_id (record r { last_updated = now }) d
            r.request_id
          ∙ rw
              (set_ok r.request_id (record r { last_updated = now }) d writes, eq_refl r.request_id)
              refl)

  module _ (fs : Files) (conf : ServerConfig) (now : ℕ) (mark_sent : Bool) where
    pub valid_state :
        (r : AgentRequestRecord) (params : Dict String) (acc : List AgentRequest) (d : Db)
        → (send_valid fs conf now mark_sent r (some params) acc d).1
          ≡ (set_agent_request now (sent mark_sent r params) d).1
    unfolding send_valid
    valid_state r params acc d =
        ap (λ p. p.1)
          (resume-ok _ (ignore (set_agent_request now (sent mark_sent r params)) d) (
            ignored (set_agent_request now (sent mark_sent r params)) d
              (set_ends now (sent mark_sent r params) d)))
        ∙ ignored_state (set_agent_request now (sent mark_sent r params) d).0
            (set_agent_request now (sent mark_sent r params) d).1

    invalid_state :
        (r : AgentRequestRecord) (e : Invalid) (acc : List AgentRequest) (d : Db)
        → (send_checked fs conf now mark_sent r (some e) acc d).1
          ≡ (set_agent_request now (record r { status = invalid }) d).1
    unfolding send_checked
    invalid_state r e acc d =
        ap (λ p. p.1)
          (resume-ok _ (ignore (set_agent_request now (record r { status = invalid })) d) (
            ignored (set_agent_request now (record r { status = invalid })) d
              (set_ends now (record r { status = invalid }) d)))
        ∙ ignored_state (set_agent_request now (record r { status = invalid }) d).0
            (set_agent_request now (record r { status = invalid }) d).1

    send_apart :
        (r : AgentRequestRecord) (acc : List AgentRequest) (key : String) (d : Db)
        → (r.request_id == key) ≡ false
        → stored_at requests_bucket (send fs conf now mark_sent r acc d).1 key
          ≡ stored_at requests_bucket d key
    unfolding send send_checked send_valid
    send_apart r acc key d apart = elim (Bool-cases (selected conf now r)) [
      | inr e ↦ rw e refl
      | inl e ↦ elim (Option-cases (validate r.request r.parameters)) [
        | inr (why, bad) ↦
            rw (e, bad)
              (ap (λ t. stored_at requests_bucket t key) (invalid_state r why acc d)
                ∙ set_apart now (record r { status = invalid }) key d apart)
        | inl good ↦ elim (Option-cases (with_hash fs r)) [
          | inl unusable ↦ rw (e, good, unusable) refl
          | inr (params, usable) ↦
              rw (e, good, usable)
                (ap (λ t. stored_at requests_bucket t key) (valid_state r params acc d)
                  ∙ set_apart now (sent mark_sent r params) key d apart)
        ]
      ]
    ]

    pub rest_apart :
        (rs : List AgentRequestRecord) (acc : List AgentRequest) (key : String) (d : Db)
        → All (λ x. (x.request_id == key) ≡ false) rs
        → stored_at requests_bucket (send_all fs conf now mark_sent rs acc d).1 key
          ≡ stored_at requests_bucket d key
    unfolding send_all
    rest_apart [] acc key d h = refl
    rest_apart (r ∷ rs) acc key d h =
        ap (λ p. stored_at requests_bucket p.1 key)
          (resume-ok _ (send fs conf now mark_sent r acc d)
            (send_lem fs conf now mark_sent r acc d))
        ∙ rest_apart rs _ key _ h.1
        ∙ send_apart r acc key d h.0
