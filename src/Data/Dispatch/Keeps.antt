-- ===== src/Data/Dispatch/Keeps.antt =====
-- An invariant of the stored requests through a sync's dispatch and through the queueing of a request.
use unify_em.Base.{
  ℕ, String, ◌≡◌, refl, Bool, true, Option, none, some, List, [], ◌∷◌, ◌++◌, All, Dict, fault,
  agent_id_required,
}
use unify_em.Base.Ensures.{
  Ensures, Always, Always-ok, Ensures-pure, Ensures-bind, Ensures-raise, Ensures-if,
  Ensures-wrapping, Ensures-ignore,
}
use unify_em.Schema.{AgentRequest, AgentRequestRecord, invalid}
use unify_em.Bolt.{Bolt}
use unify_em.Commands.Validate.{Invalid, validate}
use unify_em.Db.Bucket.{Db, check_data}
use unify_em.Db.Agents.{agent_exists}
use unify_em.Db.Requests.Keeps.{
  AllRequests, AllowsTouch, set_agent_request-Keeps, get_agent_requests-Keeps,
}
use unify_em.Data.Config.{ServerConfig}
use unify_em.Data.Dispatch.{
  Files, selected, sent, to_agent, with_hash, send_valid, send_checked, send, send_all,
  agent_requests, new_record, new_request_id, request_agent_id, store_request, add_agent_request,
}

pub record AllowsDispatch (conf : ServerConfig) (Q : AgentRequestRecord → Type 0) : Type 0 where
  pub send :
      (now : ℕ) (mark_sent : Bool) (r : AgentRequestRecord) (params : Dict String)
      → selected conf now r ≡ true
      → Q r
      → Q (sent mark_sent r params)
  pub reject :
      (now : ℕ) (r : AgentRequestRecord)
      → selected conf now r ≡ true
      → Q r
      → Q (record r { status = invalid })

module _ ⦃B : Bolt⦄ (Q : AgentRequestRecord → Type 0) (allows : AllowsTouch Q) where
  -- Φ holds of what the agent is sent for a record that is selected, valid and satisfies Q.
  module _ (fs : Files) (conf : ServerConfig) (dispatch : AllowsDispatch conf Q)
      (Φ : AgentRequest → Type 0) (now : ℕ) (mark_sent : Bool)
      (offers : (r : AgentRequestRecord) (params : Dict String)
        → selected conf now r ≡ true
        → validate r.request r.parameters ≡ none
        → with_hash fs r ≡ some params
        → Q r
        → Φ (to_agent r params)) where
    All-append-sent :
        (xs : List AgentRequest) (x : AgentRequest) → All Φ xs → Φ x → All Φ (xs ++ x ∷ [])
    All-append-sent [] x h p = (p, tt)
    All-append-sent (y ∷ xs) x h p = (h.0, All-append-sent xs x h.1 p)

    valid-Keeps :
        (r : AgentRequestRecord) (o : Option (Dict String)) (acc : List AgentRequest)
        → selected conf now r ≡ true
        → Q r
        → ((params : Dict String) → o ≡ some params → Φ (to_agent r params))
        → All Φ acc
        → Ensures Db
            (List AgentRequest)
            (AllRequests Q)
            (All Φ)
            (send_valid fs conf now mark_sent r o acc)
    unfolding send_valid
    valid-Keeps r none acc e q offer h = Ensures-pure acc h
    valid-Keeps r (some params) acc e q offer h =
        Ensures-bind _ _
          (Ensures-ignore _ (
            set_agent_request-Keeps Q allows now (sent mark_sent r params)
              (dispatch.send now mark_sent r params e q)))
          (λ _ _. Ensures-pure _ (All-append-sent acc (to_agent r params) h (offer params refl)))

    checked-Keeps :
        (r : AgentRequestRecord) (o : Option Invalid) (acc : List AgentRequest)
        → selected conf now r ≡ true
        → validate r.request r.parameters ≡ o
        → Q r
        → All Φ acc
        → Ensures Db
            (List AgentRequest)
            (AllRequests Q)
            (All Φ)
            (send_checked fs conf now mark_sent r o acc)
    unfolding send_checked
    checked-Keeps r none acc e v q h =
        valid-Keeps r (with_hash fs r) acc e q (λ params w. offers r params e v w q) h
    checked-Keeps r (some why) acc e v q h =
        Ensures-bind _ _
          (Ensures-ignore _ (
            set_agent_request-Keeps Q allows now (record r { status = invalid })
              (dispatch.reject now r e q)))
          (λ _ _. Ensures-pure _ h)

    send-Keeps :
        (r : AgentRequestRecord) (acc : List AgentRequest)
        → Q r
        → All Φ acc
        → Ensures Db (List AgentRequest) (AllRequests Q) (All Φ) (send fs conf now mark_sent r acc)
    unfolding send
    send-Keeps r acc q h =
        Ensures-if (selected conf now r) _ _
          (λ e. checked-Keeps r (validate r.request r.parameters) acc e refl q h)
          (λ _. Ensures-pure acc h)

    send_all-Keeps :
        (rs : List AgentRequestRecord) (acc : List AgentRequest)
        → All Q rs
        → All Φ acc
        → Ensures Db
            (List AgentRequest)
            (AllRequests Q)
            (All Φ)
            (send_all fs conf now mark_sent rs acc)
    unfolding send_all
    send_all-Keeps [] acc q h = Ensures-pure acc h
    send_all-Keeps (r ∷ rest) acc q h =
        Ensures-bind _ (send_all fs conf now mark_sent rest) (send-Keeps r acc q.0 h)
          (λ acc' h'. send_all-Keeps rest acc' q.1 h')

    pub agent_requests-Keeps :
        (id : String)
        → Ensures Db
            (List AgentRequest)
            (AllRequests Q)
            (All Φ)
            (agent_requests fs conf now mark_sent id)
    unfolding agent_requests
    agent_requests-Keeps id =
        Ensures-bind _ _ (get_agent_requests-Keeps Q allows id) (λ rs q. send_all-Keeps rs [] q tt)

  agent_exists-Keeps :
      (id : String) → Ensures Db (Unit {0}) (AllRequests Q) Always (agent_exists id)
  unfolding agent_exists check_data
  agent_exists-Keeps id = record { at = λ d h. (h, Always-ok _) }

  pub add-Keeps :
      (now : ℕ) (fresh : String) (r : AgentRequest)
      → ((id : String) → Q (new_record now id (new_request_id fresh r) r))
      → Ensures Db String (AllRequests Q) Always (add_agent_request now fresh r)
  unfolding add_agent_request
  add-Keeps now fresh r q = stored (request_agent_id r)
    where
      stored :
          (o : Option String)
          → Ensures Db String (AllRequests Q) Always (store_request now fresh r o)
      stored none = Ensures-raise (fault agent_id_required)
      stored (some id) = Ensures-bind _ _ (agent_exists-Keeps id) (λ _ _.
          Ensures-bind _ _ (Ensures-wrapping _ (set_agent_request-Keeps Q allows now _ (q id)))
            (λ _ _. Ensures-pure _ tt))
