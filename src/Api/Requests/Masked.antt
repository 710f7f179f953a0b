-- ===== src/Api/Requests/Masked.antt =====
-- No handler shows a password that a request carries.
use unify_em.Base.{
  ℕ, String, ◌≡◌, none, some, List, [], ◌∷◌, ◌⊎◌, inl, inr, ◌==◌, Dict, lookup, lookup-insert, All,
  Outcome, ok, err, panic, resume, pure, attempt, Result, value, error, Bool-cases, Option-cases,
}
use unify_em.Schema.{AgentRequestRecord}
use unify_em.Bolt.{Bolt}
use unify_em.Db.Bucket.{Db}
use unify_em.Db.Requests.{get_all_request_records, get_agent_request_records}
use unify_em.Data.Sync.{redacted}
use unify_em.Api.Http.{Reply, JResponse, request_status, refuse, with_param}
use unify_em.Api.Requests.{masked, shown_or, get_request_record, get_request, get_agent_requests}

-- The request has no password, or asterisks in its place.
abbrev pub IsMasked : AgentRequestRecord → Type 0
IsMasked r =
    (lookup "password" r.parameters ≡ none) ⊎ (lookup "password" r.parameters ≡ some "********")

redacted_lem :
    (m : Dict String)
    → (lookup "password" (redacted m) ≡ none) ⊎ (lookup "password" (redacted m) ≡ some "********")
redacted_lem m = elim (Option-cases (lookup "password" m)) [
  | inl gone ↦ rw gone (inl gone)
  | inr (v, there) ↦ rw there (inr (lookup-insert "password" "password" "********" m))
]

masked-All : (rs : List AgentRequestRecord) → All IsMasked (masked rs)
unfolding masked
masked-All [] = tt
masked-All (r ∷ rs) = (redacted_lem r.parameters, masked-All rs)

abbrev pub ReplyShows : (AgentRequestRecord → Type 0) → Reply → Type 0
ReplyShows P (request_status rs) = All P rs
ReplyShows P _ = Unit

-- What holds of the requests in a reply, where it shows requests.
abbrev pub Shows : (AgentRequestRecord → Type 0) → Outcome JResponse → Type 0
Shows P (ok r) = ReplyShows P r.json_data
Shows P _ = Unit

shown-IsMasked :
    (code : ℕ) (details : String) (o : Result (List AgentRequestRecord))
    → Shows IsMasked (ok (shown_or (refuse code details) o))
unfolding shown_or
shown-IsMasked code details (value ts) = masked-All ts
shown-IsMasked code details (error x) = tt

module _ ⦃B : Bolt⦄ where
  resumed :
      (code : ℕ) (details : String) (p : Outcome (List AgentRequestRecord) × Db)
      → Shows IsMasked
          (resume (λ rs. pure (shown_or (refuse code details) rs)) (attempt (λ _. p) p.1)).0
  resumed code details (ok a, s) = shown-IsMasked code details (value a)
  resumed code details (err e, s) = shown-IsMasked code details (error e)
  resumed code details (panic, s) = tt

  -- In every reply of the two handlers that show requests, each request has no password or asterisks
  -- in its place.
  pub get_request-IsMasked :
      (id : String) (d : Db)
      → Shows IsMasked (get_request id d).0 × Shows IsMasked (get_agent_requests id d).0
  unfolding get_request get_agent_requests with_param
  get_request-IsMasked id d = elim (Bool-cases (id == "")) [
    | inl empty ↦ rw empty (resumed 500 "error retrieving requests" (get_all_request_records d), tt)
    | inr given ↦ rw given (
      resumed 404 "request not found" (get_request_record id d),
      resumed 500 "error retrieving agent requests" (get_agent_request_records id d),
    )
  ]
