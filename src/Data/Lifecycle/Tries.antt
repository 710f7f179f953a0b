-- ===== src/Data/Lifecycle/Tries.antt =====
-- A request is sent once, and again while the configured number of tries allows it: each send is
-- counted.
use Prim.Native.Nat.{max}
use mathlib.Core.List.{Memᴰ}
use unify_em.Base.{
  false, some, ok, ◌==◌, ◌<◌, ℕ, ◌≤◌, String, ◌≡◌, refl, Bool, true, List, [], ◌∷◌, arith, All,
  Dict,
}
use unify_em.Schema.{AgentRequest, AgentRequestRecord}
use unify_em.Db.Requests.Reads.{readable}
use unify_em.Data.Dispatch.Spec.Writing.{Writes}
use unify_em.Data.Dispatch.Spec.Counted.{IsCounted, sent-IsCounted}
use unify_em.Bolt.{Bolt}
use unify_em.Db.Bucket.{Db, Stored}
use unify_em.Db.Requests.Keeps.{AllRequests}
use unify_em.Data.Config.{ServerConfig}
use unify_em.Data.Dispatch.{selected, sent, is_new, agent_requests}
use unify_em.Data.Sync.{answered}
use unify_em.Data.Lifecycle.{Server, Operation, add, run}
use unify_em.Data.Lifecycle.Invariants.{Allows, AddsOnly, run-Keeps}

-- A new request has not been sent, and none has been sent more often than the limit allows.
abbrev pub WithinTries : ℕ → AgentRequestRecord → Type 0
WithinTries limit r = (is_new r.status ≡ true → r.send_count ≡ 0) × (r.send_count ≤ max 1 limit)

sent_within :
    (conf : ServerConfig) (now : ℕ) (mark_sent : Bool) (r : AgentRequestRecord)
    (params : Dict String)
    → selected conf now r ≡ true
    → WithinTries conf.request_retries r
    → WithinTries conf.request_retries (sent mark_sent r params)
unfolding selected
sent_within conf now mark_sent r params e q = ground arith

try_left :
    (conf : ServerConfig) (now : ℕ) (r : AgentRequestRecord)
    → selected conf now r ≡ true
    → WithinTries conf.request_retries r
    → r.send_count < max 1 conf.request_retries
unfolding selected
try_left conf now r e q = ground arith

module _ (server : Server) where
  tries_allowed : Allows server (WithinTries server.conf.request_retries)
  unfolding answered
  tries_allowed = record {
    cancels = record { touches = record { touch = λ r t q. q }; cancel = λ r e q. (λ n. cc, q.1) };
    dispatches = record {
      send = λ now mark_sent r params e q. sent_within server.conf now mark_sent r params e q;
      reject = λ now r e q. (λ n. cc, q.1);
    };
    answers = λ id. record { answer = λ r resp own q. (λ n. ground arith, q.1) };
  }

  adds_within : (op : Operation) → AddsOnly (WithinTries server.conf.request_retries) op
  adds_within (add now fresh r) = λ id. (λ n. refl, omega arith)
  adds_within _ = tt

  All-within : (ops : List Operation) → All (AddsOnly (WithinTries server.conf.request_retries)) ops
  All-within [] = tt
  All-within (op ∷ ops) = (adds_within op, All-within ops)

  module _ ⦃B : Bolt⦄ (ops : List Operation) (d : Db)
      (h : AllRequests (WithinTries server.conf.request_retries) d) where
    -- After any sequence of operations no count is over the limit, and that of a new request is 0.
    run_within : AllRequests (WithinTries server.conf.request_retries) (run server ops d)
    run_within =
        run-Keeps server (WithinTries server.conf.request_retries) tries_allowed ops d
          (All-within ops) h

    -- Let every stored request stand under its own ID, with no send counted while it is new and no more
    -- than max(1, request_retries) else. After any sequence of operations, in any order, a dispatch to
    -- an agent sends only requests with a send left, and counts it: the request was stored under its
    -- ID for that agent, was selected and had fewer sends than max(1, request_retries), and afterwards
    -- it is stored with one more and no longer as new. For the dispatch the bucket of requests is
    -- there and decodes, the two IDs are not empty, and no write under the request's ID fails (a
    -- failed write is ignored by the code, and then the request is sent without being counted).
    pub tries_bounded :
        (now : ℕ) (mark_sent : Bool) (id : String) (b : B.Bucket (Stored AgentRequestRecord))
        (rs : List AgentRequestRecord) (q : AgentRequest) (requests : List AgentRequest)
        → (run server ops d).requests ≡ some b
        → readable (B.entries b) ≡ some rs
        → (id == "") ≡ false
        → (q.request_id == "") ≡ false
        → Writes q.request_id
        → (agent_requests server.files server.conf now mark_sent id (run server ops d)).0
          ≡ ok requests
        → Memᴰ q requests
        → (c : IsCounted server.files server.conf now mark_sent id (run server ops d) q)
          × (c.before.send_count < max 1 server.conf.request_retries)
    tries_bounded now mark_sent id b rs q requests there all named k writes replies m =
        let c : IsCounted server.files server.conf now mark_sent id (run server ops d) q =
          sent-IsCounted server.files server.conf now mark_sent id (run server ops d) b rs q
            requests there all (λ j v e. (run_within j v e).id_is_key) named k writes replies m in
        (
          c,
          try_left server.conf now c.before c.is_selected
              (run_within q.request_id c.before c.was_stored).holds,
        )
