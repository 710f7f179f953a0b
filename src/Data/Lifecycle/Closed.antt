-- ===== src/Data/Lifecycle/Closed.antt =====
-- A request that is complete, failed, invalid or cancelled is closed for good.
use unify_em.Base.{ℕ, String, ◌≡◌, ◌≢◌, refl, Bool, true, false, List, arith, All, All-map}
use unify_em.Base.Ensures.{OnOk}
use unify_em.Schema.{AgentRequestRecord, AgentResponse}
use unify_em.Bolt.{Bolt}
use unify_em.Db.Bucket.{Db}
use unify_em.Db.Requests.{is_open}
use unify_em.Db.Requests.Keeps.{AllRequests}
use unify_em.Data.Config.{ServerConfig}
use unify_em.Data.Dispatch.{selected, new_request_id, agent_requests}
use unify_em.Data.Dispatch.Keeps.{agent_requests-Keeps}
use unify_em.Data.Sync.{answered}
use unify_em.Data.Lifecycle.{Server, Operation, add, run}
use unify_em.Data.Lifecycle.Invariants.{Allows, AddsOnly, run-Keeps}

-- A record with this request ID is closed.
abbrev pub ClosedAt : String → AgentRequestRecord → Type 0
ClosedAt k r = r.request_id ≡ k → is_open r.status ≡ false

-- The operation queues no request under this ID.
abbrev pub AddsOther : String → Operation → Type 0
AddsOther k (add now fresh r) = new_request_id fresh r ≢ k
AddsOther k _ = Unit

pub selected_open :
    (conf : ServerConfig) (now : ℕ) (r : AgentRequestRecord)
    → selected conf now r ≡ true
    → is_open r.status ≡ true
unfolding selected
selected_open conf now r h = ground arith

answered_closed :
    (r : AgentRequestRecord) (resp : AgentResponse) → is_open (answered r resp).status ≡ false
unfolding answered
answered_closed r resp = ground arith

module _ (k : String) (server : Server) where
  never :
      (conf : ServerConfig) (now : ℕ) (r : AgentRequestRecord)
      → selected conf now r ≡ true
      → ClosedAt k r
      → r.request_id ≢ k
  never conf now r e q same = cc (selected_open conf now r e, q same)

  closed_allowed : Allows server (ClosedAt k)
  unfolding answered
  closed_allowed = record {
    cancels = record { touches = record { touch = λ r t q. q }; cancel = λ r e q same. refl };
    dispatches = record {
      send = λ now mark_sent r params e q same. absurd (never server.conf now r e q same);
      reject = λ now r e q same. refl;
    };
    answers = λ id. record { answer = λ r resp own q same. answered_closed r resp };
  }

  adds_only : (op : Operation) → AddsOther k op → AddsOnly (ClosedAt k) op
  adds_only (add now fresh r) other = λ id same. absurd (other same)
  adds_only _ other = tt

  module _ ⦃B : Bolt⦄ where
    -- A request that is closed in the database (every record under its own ID) stays closed, and a
    -- later dispatch to any agent does not send it, through any operations that queue nothing under
    -- its ID.
    pub closed_never_reopens :
        (ops : List Operation) (d : Db) (now : ℕ) (mark_sent : Bool) (id : String)
        → All (AddsOther k) ops
        → AllRequests (ClosedAt k) d
        → AllRequests (ClosedAt k) (run server ops d)
          × OnOk
              (All (λ a. a.request_id ≢ k))
              (agent_requests server.files server.conf now mark_sent id (run server ops d)).0
    closed_never_reopens ops d now mark_sent id others h =
        let after : AllRequests (ClosedAt k) (run server ops d) =
          run-Keeps server (ClosedAt k) closed_allowed ops d (All-map _ _ adds_only ops others) h in
        (
          after,
          ((agent_requests-Keeps (ClosedAt k) closed_allowed.cancels.touches server.files
                server.conf closed_allowed.dispatches (λ a. a.request_id ≢ k) now mark_sent
                (λ r params e _ _ q. never server.conf now r e q) id).at
              (run server ops d) after).1,
        )
