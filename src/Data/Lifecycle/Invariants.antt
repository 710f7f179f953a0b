-- ===== src/Data/Lifecycle/Invariants.antt =====
-- An invariant that every operation allows holds after any sequence of operations.
use unify_em.Base.{String, List, [], ◌∷◌, All}
use unify_em.Base.Ensures.{Always}
use unify_em.Schema.{AgentRequestRecord}
use unify_em.Bolt.{Bolt}
use unify_em.Db.Bucket.{Db}
use unify_em.Db.Requests.{delete_agent_request}
use unify_em.Db.Requests.Keeps.{
  AllRequests, AllowsCancel, cancel-Keeps, cancel_all-Keeps, prune-Keeps, delete-Keeps,
}
use unify_em.Db.Prune.Keeps.{prune_agents-Keeps}
use unify_em.Data.Dispatch.{new_record, new_request_id}
use unify_em.Data.Dispatch.Keeps.{AllowsDispatch, agent_requests-Keeps, add-Keeps}
use unify_em.Data.Sync.Keeps.{AllowsAnswer, sync-Keeps, agent_delete-Keeps}
use unify_em.Data.Lifecycle.{
  Server, Operation, add, dispatch, process, cancel, cancel_all, delete_request, delete_agent,
  prune_requests, prune_inactive, step, run,
}

pub record Allows (server : Server) (Q : AgentRequestRecord → Type 0) : Type 0 where
  pub cancels : AllowsCancel Q
  pub dispatches : AllowsDispatch server.conf Q
  pub answers : (id : String) → AllowsAnswer Q id

-- The record that an operation adds satisfies Q; the other operations add none.
abbrev pub AddsOnly : (AgentRequestRecord → Type 0) → Operation → Type 0
AddsOnly Q (add now fresh r) = (id : String) → Q (new_record now id (new_request_id fresh r) r)
AddsOnly Q _ = Unit

module _ ⦃B : Bolt⦄ (server : Server) (Q : AgentRequestRecord → Type 0)
    (allows : Allows server Q) where
  pub step-Keeps :
      (op : Operation) (d : Db) → AddsOnly Q op → AllRequests Q d → AllRequests Q (step server op d)
  unfolding step delete_agent_request
  step-Keeps (add now fresh r) d a h = ((add-Keeps Q allows.cancels.touches now fresh r a).at d h).0
  step-Keeps (dispatch now mark_sent id) d a h =
      ((agent_requests-Keeps Q allows.cancels.touches server.files server.conf allows.dispatches
          Always now mark_sent (λ _ _ _ _ _ _. tt) id).at
        d h).0
  step-Keeps (process now fresh s) d a h =
      ((sync-Keeps Q allows.cancels.touches now fresh server.decrypt server.conf s
          (allows.answers s.agent_id)).at
        d h).0
  step-Keeps (cancel now key) d a h = ((cancel-Keeps Q allows.cancels now key).at d h).0
  step-Keeps (cancel_all now id) d a h = ((cancel_all-Keeps Q allows.cancels now id).at d h).0
  step-Keeps (delete_request key) d a h = ((delete-Keeps Q allows.cancels.touches key).at d h).0
  step-Keeps (delete_agent id) d a h = ((agent_delete-Keeps Q allows.cancels.touches id).at d h).0
  step-Keeps (prune_requests now days) d a h =
      ((prune-Keeps Q allows.cancels.touches now days).at d h).0
  step-Keeps (prune_inactive now days) d a h =
      ((prune_agents-Keeps Q allows.cancels.touches now days).at d h).0

  pub run-Keeps :
      (ops : List Operation) (d : Db)
      → All (AddsOnly Q) ops
      → AllRequests Q d
      → AllRequests Q (run server ops d)
  unfolding run
  run-Keeps [] d a h = h
  run-Keeps (op ∷ ops) d a h = run-Keeps ops (step server op d) a.1 (step-Keeps op d a.0 h)
