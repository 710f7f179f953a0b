-- ===== src/Agent/Rounds/Restored.antt =====
-- No round loses the responses that wait.
use unify_em.Base.{ℕ, String, ◌≡◌, Bool, true, Option, some, ◌⊎◌, nat_eq}
use unify_em.Schema.{AgentTriggers}
use unify_em.Queue.Responses.{ResponseQueue}
use unify_em.Agent.Link.{Net, SyncAnswer}
use unify_em.Agent.Link.Got.{Got}
use unify_em.Agent.Rounds.{Comms, sync_request, alerts}

-- The responses that wait are the same, in the same order, and so is the recovery information.
pub record Kept (q : ResponseQueue) (info : String) (c' : Comms) : Type 0 where
  pub same_responses : c'.responses.queue ≡ q.queue
  pub same_recovery : c'.pending_recovery ≡ info

module _ (net : Net) (triggers_text : AgentTriggers → String) (now : ℕ) where
  -- The server has answered with 200 a request that carries them.
  pub record Delivered (q : ResponseQueue) (info : String) (lost : Bool) : Type 0 where
    pub agent_id : String
    pub answer : SyncAnswer
    pub is_ok : nat_eq answer.status_code 200 ≡ true
    pub got :
        Got
          (λ n url token. net.sync n url token (
            sync_request net triggers_text now
              (alerts net triggers_text now lost agent_id)
              q.queue.items
              info))
          answer

  abbrev Ends : Comms → Option Comms → Type 0
  Ends c o =
      ((c' : Comms) × (o ≡ some c') × Kept c.responses c.pending_recovery c')
      ⊎ Delivered c.responses c.pending_recovery c.lost
