-- ===== src/Data/Lifecycle/Origin.antt =====
-- What was asked, of whom and by whom is fixed when a request is queued.
use unify_em.Base.{◌≡◌, List, All, All-map}
use unify_em.Schema.{AgentRequestRecord}
use unify_em.Bolt.{Bolt}
use unify_em.Db.Bucket.{Db}
use unify_em.Db.Requests.Keeps.{AllRequests}
use unify_em.Data.Sync.{answered}
use unify_em.Data.Lifecycle.{Server, Operation, add, run}
use unify_em.Data.Lifecycle.Invariants.{Allows, AddsOnly, run-Keeps}
use unify_em.Data.Lifecycle.Closed.{AddsOther}

-- A record with the request ID of `o` agrees with `o` in what was queued.
abbrev pub FromOrigin : AgentRequestRecord → AgentRequestRecord → Type 0
FromOrigin o r =
    r.request_id ≡ o.request_id
    → (r.agent_id ≡ o.agent_id)
      × (r.request ≡ o.request)
      × (r.requester ≡ o.requester)
      × (r.ack_required ≡ o.ack_required)
      × (r.time_created ≡ o.time_created)

module _ (o : AgentRequestRecord) (server : Server) where
  origin_allowed : Allows server (FromOrigin o)
  unfolding answered
  origin_allowed = record {
    cancels = record { touches = record { touch = λ r t q. q }; cancel = λ r e q. q };
    dispatches = record { send = λ now mark_sent r params e q. q; reject = λ now r e q. q };
    answers = λ id. record { answer = λ r resp own q. q };
  }

  adds_only : (op : Operation) → AddsOther o.request_id op → AddsOnly (FromOrigin o) op
  adds_only (add now fresh r) other = λ id same. absurd (other same)
  adds_only _ other = tt

  -- Let every record stand under its own ID. No sequence of operations changes the agent, the
  -- command, the requester, the need of an acknowledgment or the creation time of a stored request,
  -- unless it queues a new request under the same ID.
  pub origin_fixed :
      ⦃B : Bolt⦄ (ops : List Operation) (d : Db)
      → All (AddsOther o.request_id) ops
      → AllRequests (FromOrigin o) d
      → AllRequests (FromOrigin o) (run server ops d)
  origin_fixed ops d others h =
      run-Keeps server (FromOrigin o) origin_allowed ops d (All-map _ _ adds_only ops others) h
