-- ===== src/Data/Dispatch/Spec.antt =====
-- What GetAgentRequests returns, as a filter of the stored records.
pub mod Sources
pub mod Writing
pub mod Counted
use mathlib.Core.Option
use mathlib.Core.List.{append-nil, append_assoc}
use unify_em.Base.{
  ℕ, String, ◌≡◌, refl, sym, ap, ◌∙◌, Bool, Option, none, some, List, [], ◌∷◌, ◌++◌, if◌then◌else◌,
  Exec, Dict, resume, Outcome, ok, err, panic, settle, pure, ignore, wrapped, Bool-cases, inl, inr,
  Result, ◌==◌,
}
use unify_em.Base.Inversion.{resume-ok}
use unify_em.Schema.{AgentRequest, AgentRequestRecord, invalid}
use unify_em.Bolt.{Bolt}
use unify_em.Commands.Validate.{Invalid, validate}
use unify_em.Db.Bucket.{Db, Stored, requests_bucket, set_data, committed}
use unify_em.Db.Requests.{set_agent_request}
use unify_em.Db.Requests.Reads.{readable, owned, get_agent_requests_lem}
use unify_em.Data.Config.{ServerConfig}
use unify_em.Data.Dispatch.{
  Files, selected, sent, to_agent, with_hash, send_valid, send_checked, send, send_all,
  agent_requests,
}

-- What the agent is sent for one of its requests, if anything.
abbrev pub offered_valid : Files → AgentRequestRecord → Option Invalid → Option AgentRequest
offered_valid fs r none = Option.map (to_agent r) (with_hash fs r)
offered_valid fs r (some why) = none

abbrev pub offered : Files → ServerConfig → ℕ → AgentRequestRecord → Option AgentRequest
offered fs conf now r =
    if selected conf now r then offered_valid fs r (validate r.request r.parameters) else none

abbrev pub push {ℓ} : {A : Type ℓ} → Option A → List A → List A
push none xs = xs
push (some x) xs = x ∷ xs

abbrev pub choose {ℓ κ} : {A : Type ℓ} {B : Type κ} → (A → Option B) → List A → List B
choose f [] = []
choose f (x ∷ xs) = push (f x) (choose f xs)

append-push :
    {A : Type 0} (acc : List A) (o : Option A) (xs : List A)
    → (acc ++ push o []) ++ xs ≡ acc ++ push o xs
append-push acc none xs = rw append-nil
append-push acc (some x) xs = append_assoc acc (x ∷ []) xs

abbrev NoPanic : {A : Type 0} → Outcome A → Type 0
NoPanic panic = ⊥
NoPanic _ = Unit

settled :
    {S A : Type 0} (r : Outcome A) (s : S)
    → NoPanic r
    → ◌≡◌ {A = Outcome (Unit {0})} (resume (λ (_ : Result A). pure tt) (settle r, s)).0 (ok tt)
settled (ok a) s h = refl
settled (err e) s h = refl
settled panic s h = absurd h

ignored : {S A : Type 0} (m : Exec S A) (s : S) → NoPanic (m s).0 → (ignore m s).0 ≡ ok tt
ignored m s h = settled (m s).0 (m s).1 h

module _ ⦃B : Bolt⦄ where
  committed_ends :
      (o : Option (B.Bucket (Stored AgentRequestRecord))) (d : Db)
      → NoPanic (wrapped (committed requests_bucket d o).0)
  committed_ends none d = tt
  committed_ends (some b) d = tt

  set_ends : (now : ℕ) (r : AgentRequestRecord) (d : Db) → NoPanic (set_agent_request now r d).0
  unfolding set_agent_request set_data
  set_ends now r d = elim (Bool-cases (r.agent_id == "")) [
    | inl e ↦ rw e tt
    | inr e ↦ elim (Bool-cases (r.request_id == "")) [
      | inl f ↦ rw (e, f) tt
      | inr f ↦ rw (e, f) (committed_ends _ d)
    ]
  ]

  module _ (fs : Files) (conf : ServerConfig) (now : ℕ) (mark_sent : Bool) where
    send_valid_lem :
        (r : AgentRequestRecord) (o : Option (Dict String)) (acc : List AgentRequest) (d : Db)
        → (send_valid fs conf now mark_sent r o acc d).0
          ≡ ok (acc ++ push (Option.map (to_agent r) o) [])
    unfolding send_valid
    send_valid_lem r none acc d = rw append-nil
    send_valid_lem r (some params) acc d =
        ap (λ p. p.0)
          (resume-ok _ (ignore (set_agent_request now (sent mark_sent r params)) d) (
            ignored (set_agent_request now (sent mark_sent r params)) d
              (set_ends now (sent mark_sent r params) d)))

    send_checked_lem :
        (r : AgentRequestRecord) (o : Option Invalid) (acc : List AgentRequest) (d : Db)
        → (send_checked fs conf now mark_sent r o acc d).0
          ≡ ok (acc ++ push (offered_valid fs r o) [])
    unfolding send_checked
    send_checked_lem r none acc d = send_valid_lem r (with_hash fs r) acc d
    send_checked_lem r (some why) acc d =
        ap (λ p. p.0)
          (resume-ok _ (ignore (set_agent_request now (record r { status = invalid })) d) (
            ignored (set_agent_request now (record r { status = invalid })) d
              (set_ends now (record r { status = invalid }) d)))
        ∙ ap ok (sym (append-nil acc))

    send_lem :
        (r : AgentRequestRecord) (acc : List AgentRequest) (d : Db)
        → (send fs conf now mark_sent r acc d).0 ≡ ok (acc ++ push (offered fs conf now r) [])
    unfolding send
    send_lem r acc d = elim (Bool-cases (selected conf now r)) [
      | inl e ↦ rw e (send_checked_lem r (validate r.request r.parameters) acc d)
      | inr e ↦ rw e (ap ok (sym (append-nil acc)))
    ]

    pub send_all_lem :
        (rs : List AgentRequestRecord) (acc : List AgentRequest) (d : Db)
        → (send_all fs conf now mark_sent rs acc d).0 ≡ ok (acc ++ choose (offered fs conf now) rs)
    unfolding send_all
    send_all_lem [] acc d = ap ok (sym (append-nil acc))
    send_all_lem (r ∷ rest) acc d =
        ap (λ p. p.0) (resume-ok _ (send fs conf now mark_sent r acc d) (send_lem r acc d))
        ∙ send_all_lem rest _ _
        ∙ ap ok (append-push acc (offered fs conf now r) (choose (offered fs conf now) rest))

    -- Where the bucket of requests is there and every stored request can be decoded, a sync's
    -- dispatch succeeds, and the agent is sent, in the bucket's order, exactly its own requests
    -- that are selected, pass the validation and have a usable download URL, with the parameters
    -- that the hash step makes.
    pub agent_requests_lem :
        (id : String) (d : Db) (b : B.Bucket (Stored AgentRequestRecord))
        (rs : List AgentRequestRecord)
        → d.requests ≡ some b
        → readable (B.entries b) ≡ some rs
        → (agent_requests fs conf now mark_sent id d).0
          ≡ ok (choose (offered fs conf now) (owned id rs))
    unfolding agent_requests
    agent_requests_lem id d b rs e h =
        ap (λ p. (resume (λ l. send_all fs conf now mark_sent l []) p).0)
          (get_agent_requests_lem id d b rs e h)
        ∙ send_all_lem (owned id rs) [] d
