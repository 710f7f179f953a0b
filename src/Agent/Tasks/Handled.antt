-- ===== src/Agent/Tasks/Handled.antt =====
-- What the loop of processRequests leaves behind.
use mathlib.Core.List.{append-nil, append_assoc}
use Prim.Native.Nat.{◌≤◌, ◌<◌}
use unify_em.Base.{
  ℕ, zero, suc, ◌+◌, String, ◌≡◌, refl, sym, ap, ◌∙◌, Bool, true, false, ◌||◌, some, List, [], ◌∷◌,
  ◌++◌, if◌then◌else◌, ◌==◌, length, ltb, All, Bool-cases, inl, inr, arith,
}
use unify_em.Schema.{AgentRequest, AgentResponse, AgentTriggers}
use unify_em.Queue.{read}
use unify_em.Queue.Responses.{is_status}
use unify_em.Queue.Responses.Restored.{any_status, added, length-snoc, or_swap}
use unify_em.Agent.{CmdHandler, execute_request}
use unify_em.Agent.Link.{Net}
use unify_em.Agent.Rounds.{Comms}
use unify_em.Agent.Recovery.{Machine}
use unify_em.Agent.Tasks.{
  Access, access, with_access, put_response, execute_queued, process_requests,
}

module _ (handlers : ℕ → String → CmdHandler Access) where
  -- The requests run in their order, each from where the one before it left the state: the responses
  -- less those with no text, the state after the last, and the number of runs until then.
  abbrev pub answers : List AgentRequest → Access → ℕ → List AgentResponse × Access × ℕ
  answers [] a k = ([], a, k)
  answers (r ∷ rs) a k =
      let (resp, a') = execute_request (handlers k) r a in
      let (rest, a'', k') = answers rs a' (suc k) in
      (if resp.response == "" then rest else resp ∷ rest, a'', k')

  -- No response asks for a shutdown.
  abbrev pub StayUp : List AgentResponse → Type 0
  StayUp resps = All (λ resp. resp.pre_shutdown ≡ false) resps

  -- All requests run from the state of the agent, before the loop begins.
  abbrev pub all_run : Comms → List AgentResponse × Access × ℕ
  all_run c =
      answers c.requests.items
        (record {
          session = c.session;
          agent_set = c.agent_set;
          credentials = c.credentials;
          credentials_pending = c.credentials_pending;
        })
        c.runs

  -- The queues and the state with these values.
  abbrev pub state : Comms → List AgentRequest → List AgentResponse → ℕ → Bool → Access → ℕ → Comms
  state c rs xs n b a k = record c {
    requests = record c.requests { items = rs };
    responses = record { queue = record { items = xs; capacity = n }; status_pending = b };
    session = a.session;
    agent_set = a.agent_set;
    credentials = a.credentials;
    credentials_pending = a.credentials_pending;
    runs = k;
  }

  -- Every request is gone, and the new responses wait behind those that waited.
  abbrev pub worked_off : Comms → Comms
  worked_off c =
      let (new, a, k) = all_run c in
      let q = c.responses.queue in
      state c [] (q.items ++ new) q.capacity (any_status new || c.responses.status_pending) a k

  module _ (net : Net) (triggers_text : AgentTriggers → String) (machine : Machine) (now : ℕ) where
    queued :
        (c : Comms) (resp : AgentResponse) (rs : List AgentRequest) (xs : List AgentResponse)
        (n : ℕ) (b : Bool) (a : Access) (k : ℕ)
        → resp.pre_shutdown ≡ false
        → ltb (length xs) n ≡ true
        → put_response net triggers_text machine handlers now resp (state c rs xs n b a k)
          ≡ some (state c rs (xs ++ resp ∷ []) n (is_status resp || b) a k)
    unfolding put_response
    queued c resp rs xs n b a k up fits = rw (added resp xs n b fits, up, put_response) refl

    silent :
        (r : AgentRequest) (c : Comms) (rs : List AgentRequest) (xs : List AgentResponse) (n : ℕ)
        (b : Bool) (a : Access) (k : ℕ)
        → ((execute_request (handlers k) r a).0.response == "") ≡ true
        → execute_queued net triggers_text machine handlers now r (state c rs xs n b a k)
          ≡ some (state c rs xs n b (execute_request (handlers k) r a).1 (suc k))
    unfolding execute_queued access with_access
    silent r c rs xs n b a k e = rw (e, execute_queued) refl

    said :
        (r : AgentRequest) (c : Comms) (rs : List AgentRequest) (xs : List AgentResponse) (n : ℕ)
        (b : Bool) (a : Access) (k : ℕ)
        → ((execute_request (handlers k) r a).0.response == "") ≡ false
        → execute_queued net triggers_text machine handlers now r (state c rs xs n b a k)
          ≡ put_response net triggers_text machine handlers now
              (execute_request (handlers k) r a).0
              (state c rs xs n b (execute_request (handlers k) r a).1 (suc k))
    unfolding execute_queued access with_access
    said r c rs xs n b a k e = rw (e, execute_queued) refl

    loop :
        (rs : List AgentRequest) (fuel : ℕ) (c : Comms) (xs : List AgentResponse) (n : ℕ) (b : Bool)
        (a : Access) (k : ℕ)
        → StayUp (answers rs a k).0
        → length xs + length rs ≤ n
        → length rs < fuel
        → process_requests net triggers_text machine handlers now fuel (state c rs xs n b a k)
          ≡ some (
              let (new, a', k') = answers rs a k in
              state c [] (xs ++ new) n (any_status new || b) a' k')
    unfolding process_requests read
    loop rs zero c xs n b a k up h enough = absurd (omega arith)
    loop [] (suc fuel) c xs n b a k up h enough =
        ap (λ l. some (state c [] l n b a k)) (sym (append-nil xs))
    loop (r ∷ rs) (suc fuel) c xs n b a k up h enough =
        let (resp, a') = execute_request (handlers k) r a in
        let (new, a'', k') = answers rs a' (suc k) in
        elim (Bool-cases (resp.response == "")) [
          | inl e ↦
              rw (e, silent r c rs xs n b a k e, process_requests)
                (loop rs fuel c xs n b a' (suc k) (rw e at up) (omega arith) (omega arith))
          | inr e ↦
              rw
                (
                  e,
                  said r c rs xs n b a k e,
                  queued c resp rs xs n b a' (suc k) (rw e at up).0 (ground arith),
                  process_requests,
                )
                (loop rs fuel c (xs ++ resp ∷ []) n _ a' (suc k) (rw e at up).1
                    (omega (arith, length-snoc xs resp)) (omega arith)
                  ∙ ap (λ l. some (state c [] l n (any_status new || (is_status resp || b)) a'' k'))
                      (append_assoc xs (resp ∷ []) new)
                  ∙ ap (λ d. some (state c [] (xs ++ resp ∷ new) n d a'' k'))
                      (or_swap (is_status resp) (any_status new) b))
        ]

    -- The loop of processRequests ends: with fuel for the requests that wait, room for their responses and
    -- no response that asks for a shutdown, it takes every request and runs it once, in their order,
    -- each from the state that the one before it left. The responses, less those with no text, wait in
    -- that order behind those that waited. Of the rest only the session, the settings and the
    -- credentials are changed, as the last handler leaves them.
    pub process_requests_lem :
        (fuel : ℕ) (c : Comms)
        → StayUp (all_run c).0
        → length c.responses.queue.items + length c.requests.items ≤ c.responses.queue.capacity
        → length c.requests.items < fuel
        → process_requests net triggers_text machine handlers now fuel c ≡ some (worked_off c)
    process_requests_lem fuel c up h enough =
        loop c.requests.items fuel c c.responses.queue.items c.responses.queue.capacity
          c.responses.status_pending _ c.runs up h enough
