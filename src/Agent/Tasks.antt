-- ===== src/Agent/Tasks.antt =====
-- agent/main.go: what the agent does on each tick of its service, and how it runs the requests that wait.
pub mod Handled
use unify_em.Base.{
  ℕ, zero, suc, String, Bool, true, false, Option, none, some, [], ◌∷◌, ◌++◌, if◌then◌else◌, ◌==◌,
  not, ◌&&◌,
}
use unify_em.Schema.{AgentRequest, AgentResponse, AgentTriggers}
use unify_em.Queue.{read}
use unify_em.Queue.Responses.{add_response}
use unify_em.Agent.{CmdHandler, execute_request}
use unify_em.Agent.Try.{Try, ◌>>=◌, fail}
use unify_em.Agent.Link.{Net, Session, register_agent}
use unify_em.Config.Params.{Params}
use unify_em.Agent.Rounds.{Comms, sync_agent}
use unify_em.Agent.Timing.{elapsed, over, sync_time}
use unify_em.Agent.Recovery.{Machine, own_setting, credentials_for_server, prepare_recovery_info}

-- communication, conf and the queues with lastSync and lastStatus
pub record Service : Type 0 where
  pub comms : Comms
  pub last_sync : ℕ
  pub last_status : ℕ

-- What a handler reads and changes through conf and comms: it signs in to download a file, and it
-- reads and replaces the credentials of the service account. No handler reaches the queues.
pub record Access : Type 0 where
  pub session : Session
  pub agent_set : Params
  pub credentials : String
  pub credentials_pending : Bool

access : Comms → Access
access c = record {
  session = c.session;
  agent_set = c.agent_set;
  credentials = c.credentials;
  credentials_pending = c.credentials_pending;
}

-- The state after one more run of a handler.
with_access : Access → Comms → Comms
with_access a c = record c {
  session = a.session;
  agent_set = a.agent_set;
  credentials = a.credentials;
  credentials_pending = a.credentials_pending;
  runs = suc c.runs;
}

-- What a handler finds on the machine may differ from one run to the next, so `handlers` is given the
-- number of the run. A handler that does not return is not modelled.
module _ (net : Net) (triggers_text : AgentTriggers → String) (machine : Machine)
    (handlers : ℕ → String → CmdHandler Access) where
  -- The calls of Sync, each `none` where one blocks.
  syncs : ℕ → ℕ → Comms → Option Comms
  syncs now zero c = some c
  syncs now (suc n) c = elim (sync_agent net triggers_text now c) [
    | none ↦ none
    | some c' ↦ syncs now n c'
  ]

  -- The action of the operating system that follows three rounds.
  shut_down : ℕ → AgentResponse → Comms → Option Comms
  unfolding syncs
  shut_down now resp c = elim (syncs now 3 c) [
    | none ↦ none
    | some c' ↦ some (record c' {
      actions =
          c'.actions ++ (if resp.shutdown_type == "reboot" then "reboot" else "shutdown") ∷ [];
    })
  ]

  put_response : ℕ → AgentResponse → Comms → Option Comms
  unfolding shut_down
  put_response now resp c = elim (add_response resp c.responses) [
    | none ↦ none
    | some q ↦
        (let c' = record c { responses = q } in
          if resp.pre_shutdown then shut_down now resp c' else some c')
  ]

  -- executeRequest; its error is only logged, and `none` is a call that blocks.
  unfoldable pub execute_queued : ℕ → AgentRequest → Comms → Option Comms
  unfolding put_response access with_access
  execute_queued now r c =
      let (resp, a) = execute_request (handlers c.runs) r (access c) in
      let c' = with_access a c in if resp.response == "" then some c' else put_response now resp c'

  -- The loop of processRequests on fuel; `none` is fuel that ran out or a call that blocks.
  unfoldable pub process_requests : ℕ → ℕ → Comms → Option Comms
  process_requests now zero c = none
  process_requests now (suc fuel) c =
      let (o, waiting) = read c.requests in
      elim o [
        | none ↦ some c
        | some r ↦ elim (execute_queued now r (record c { requests = waiting })) [
          | none ↦ none
          | some c' ↦ process_requests now fuel c'
        ]
      ]

  status_request : String → AgentRequest
  status_request id = record {
    created = 0;
    requester = "";
    request = "status";
    ack_required = false;
    request_id = "status";
    agent_id = id;
    parameters = ("agent_id", id) ∷ [];
  }

  status_for : ℕ → Option String × Comms → Option Comms
  unfolding status_request
  status_for now (none, c) = some c
  status_for now (some id, c) =
      if id == ""
      then some (record c { session = (register_agent net c.session).1 })
      else execute_queued now (status_request id) c

  -- sendStatus
  unfoldable pub send_status : ℕ → Comms → Option Comms
  unfolding status_for
  send_status now c = status_for now (own_setting "agent_id" c)

  credentials_response : String → AgentResponse
  credentials_response encrypted = record {
    request_id = "none";
    cmd = "refresh_service_account";
    response = "service credentials encrypted and ready";
    success = true;
    payload = none;
    service_credentials = encrypted;
    pre_shutdown = false;
    shutdown_type = "";
  }

  credentials_to_send : Try Comms String
  credentials_to_send = do
    key ← own_setting "server_public_enc"
    if key == "" then fail else (do
      id ← own_setting "agent_id"
      if id == "" then fail else credentials_for_server machine)

  put_credentials : Option String × Comms → Option Comms
  unfolding credentials_response
  put_credentials (none, c) = some c
  put_credentials (some encrypted, c) =
      elim (add_response (credentials_response encrypted) c.responses) [
        | none ↦ none
        | some q ↦ some (record c { responses = q })
      ]

  -- sendServiceCredentials
  unfoldable pub send_service_credentials : Comms → Option Comms
  unfolding put_credentials credentials_to_send
  send_service_credentials c = put_credentials (credentials_to_send c)

  with_comms : Service → Option Comms → Option Service
  with_comms s none = none
  with_comms s (some c) = some (record s { comms = c })

  -- The first part of ServiceTasks.
  status_task : ℕ → Service → Option Service
  unfolding with_comms
  status_task now s =
      let (due, c) = over "status_interval" (elapsed now s.last_status) s.comms in
      if due && not s.comms.responses.status_pending
      then with_comms (record s { last_status = now }) (send_status now c)
      else some (record s { comms = c })

  credentials_task : Service → Option Service
  unfolding with_comms
  credentials_task s =
      let c = s.comms in
      if c.credentials_pending && not (c.credentials == "")
      then with_comms s (send_service_credentials c)
      else some s

  recovery_task : ℕ → Service → Service
  recovery_task now s = record s { comms = (prepare_recovery_info machine now s.comms).1 }

  sync_task : ℕ → Service → Option Service
  unfolding with_comms
  sync_task now s =
      let (due, c) = sync_time (elapsed now s.last_sync) s.comms in
      if due
      then with_comms (record s { last_sync = now }) (sync_agent net triggers_text now c)
      else some (record s { comms = c })

  requests_task : ℕ → ℕ → Service → Option Service
  unfolding with_comms
  requests_task now fuel s = with_comms s (process_requests now fuel s.comms)

  and_then : Option Service → (Service → Option Service) → Option Service
  and_then none f = none
  and_then (some s) f = f s

  -- ServiceTasks; `none` is a call that blocks, or fuel of processRequests that ran out.
  unfoldable pub service_tasks : ℕ → ℕ → Service → Option Service
  unfolding and_then status_task credentials_task recovery_task sync_task requests_task
  service_tasks now fuel s = and_then (status_task now s) λ s1.
      and_then (credentials_task s1)
        λ s2. and_then (sync_task now (recovery_task now s2)) (requests_task now fuel)
