-- ===== src/Db/Requests/Reads.antt =====
-- What GetAgentRequests reads: the agent's own records, in the bucket's order.
use mathlib.Core.Option
use mathlib.Core.List.{append-nil, append_assoc}
use unify_em.Base.{
  String, ◌≡◌, ap, ◌∙◌, Option, none, some, some_inj, List, [], ◌∷◌, ◌++◌, if◌then◌else◌, Dict,
  Outcome, ok, wrapped, Bool-cases, Option-cases, inl, inr, ◌==◌,
}
use unify_em.Schema.{AgentRequestRecord}
use unify_em.Bolt.{Bolt}
use unify_em.Db.Bucket.{Db, Stored, decodes, garbage, visit, visit_bucket}
use unify_em.Db.Requests.{get_agent_requests, own_request}

-- The records of the bucket, if all of them can be decoded.
abbrev pub readable : Dict (Stored AgentRequestRecord) → Option (List AgentRequestRecord)
readable [] = some []
readable ((key, decodes r) ∷ rest) = Option.map (λ rs. r ∷ rs) (readable rest)
readable ((key, garbage) ∷ rest) = none

abbrev pub owned : String → List AgentRequestRecord → List AgentRequestRecord
owned id [] = []
owned id (r ∷ rs) = let rest = owned id rs in if r.agent_id == id then r ∷ rest else rest

abbrev wrapped_pair {ℓ κ} : {A : Type ℓ} {S : Type κ} → Outcome A × S → Outcome A × S
wrapped_pair p = (wrapped p.0, p.1)

module _ ⦃B : Bolt⦄ (id : String) where
  kept-append :
      (r : AgentRequestRecord) (acc rs : List AgentRequestRecord)
      → (if r.agent_id == id then acc ++ r ∷ [] else acc) ++ owned id rs ≡ acc ++ owned id (r ∷ rs)
  kept-append r acc rs = elim (Bool-cases (r.agent_id == id)) [
    | inl e ↦ rw e (append_assoc acc (r ∷ []) (owned id rs))
    | inr e ↦ rw e
  ]

  visit-owned :
      (m : Dict (Stored AgentRequestRecord)) (rs acc : List AgentRequestRecord) (d : Db)
      → readable m ≡ some rs
      → visit (own_request id) acc m d ≡ (ok (acc ++ owned id rs), d)
  unfolding visit own_request
  visit-owned [] rs acc d h = rw (← some_inj h, append-nil)
  visit-owned ((key, garbage) ∷ m) rs acc d h = cc
  visit-owned ((key, decodes r) ∷ m) rs acc d h = elim (Option-cases (readable m)) [
    | inl e ↦ cc (let g : none ≡ some rs = rw e at h in g)
    | inr (tail, e) ↦
        visit-owned m tail _ d e
        ∙ ap (λ l. (ok l, d))
            (kept-append r acc tail ∙ ap (λ l. acc ++ owned id l) (some_inj (rw e at h)))
  ]

  -- With every record readable, the call returns the agent's own records and changes nothing.
  pub get_agent_requests_lem :
      (d : Db) (b : B.Bucket (Stored AgentRequestRecord)) (rs : List AgentRequestRecord)
      → d.requests ≡ some b
      → readable (B.entries b) ≡ some rs
      → get_agent_requests id d ≡ (ok (owned id rs), d)
  unfolding get_agent_requests visit_bucket
  get_agent_requests_lem d b rs e h =
      ap (λ o. wrapped_pair (visit_bucket (own_request id) [] o d)) e
      ∙ ap wrapped_pair (visit-owned (B.entries b) rs [] d h)
