-- ===== src/Agent/Rounds.antt =====
-- agent/communications: sync.go, triggers.go and message.go, a round of the agent: it sends the
-- responses that wait and takes the server's requests.
pub mod Restored
use Prim.Native.String.{◌++◌ as ◌+++◌}
use unify_em.Base.{
  ℕ, String, ◌≡◌, Bool, true, false, not, ◌&&◌, ◌||◌, Option, none, some, List, [], ◌∷◌, ◌++◌,
  if◌then◌else◌, ◌==◌, nat_eq, Dict,
}
use unify_em.Schema.{AgentRequest, AgentResponse, AgentTriggers}
use unify_em.Config.Params.{Params, other, get, set, set_string_map}
use unify_em.Queue.{Channel, add_all}
use unify_em.Queue.Responses.{ResponseQueue, read_all, requeue}
use unify_em.Api.Sessions.{AgentMessage, AgentSyncRequest}
use unify_em.Agent.Try.{Try, ◌>>=◌, ◌>>◌, pure, fail}
use unify_em.Agent.Link.{
  Net, Session, SyncAnswer, get_private, set_private, get_token, post_request,
}

-- Communications with its queues, triggerStatus, global.Lost and the credentials of the configuration;
-- `actions` are the uninstallers, reboots and shutdowns that were started,
-- and `runs` counts the requests that were run.
pub record Comms : Type 0 where
  pub session : Session
  pub agent_set : Params
  pub responses : ResponseQueue
  pub requests : Channel AgentRequest
  pub pending_recovery : String
  pub trigger_status : AgentTriggers
  pub lost : Bool
  pub credentials : String
  pub credentials_pending : Bool
  pub actions : List String
  pub runs : ℕ

-- newTriggers != triggerStatus
abbrev differs : Bool → Bool → Bool
differs true b = not b
differs false b = b

abbrev pub any_trigger_changes : AgentTriggers → AgentTriggers → Bool
any_trigger_changes new old =
    differs new.lost old.lost || differs new.wipe old.wipe || differs new.uninstall old.uninstall

abbrev pub bool_text : Bool → String
bool_text true = "true"
bool_text false = "false"

-- `triggers_text` is the JSON of the triggers.
module _ (net : Net) (triggers_text : AgentTriggers → String) (now : ℕ) where
  abbrev pub sync_request : List AgentMessage → List AgentResponse → String → AgentSyncRequest
  sync_request messages responses info = record {
    version = net.version;
    build = net.build;
    messages = messages;
    responses = responses;
    recovery_info = info;
  }

  message_result : Option SyncAnswer → Try Session (Unit {0})
  message_result none = fail
  message_result (some a) = if nat_eq a.status_code 200 then pure tt else fail

  -- SendMessage
  unfoldable pub send_message : String → Try Session (Unit {0})
  unfolding message_result
  send_message message = do
    id ← get_private "agent_id"
    if id == "" then fail else (do
      server ← get_private "server_url"
      if server == "" then fail else (do
        answer ← post_request net server (
            sync_request
              (record { agent_id = id; sent = now; message_type = "message"; message = message }
                ∷ [])
              [] "")
        message_result answer))

  -- The error of a message is logged.
  say : String → Comms → Comms
  say message c = record c { session = (send_message message c.session).1 }

  set_lost : Bool → Comms → Comms
  unfolding say
  set_lost b c =
      let s = c.session in
      say ("lost mode changed to " +++ bool_text b) (record c {
        lost = b;
        session = record s {
          agent_private = set "config_lost" (other (bool_text b)) s.agent_private;
        };
      })

  start_uninstall : Comms → Comms
  unfolding say
  start_uninstall c =
      let c' = say "uninstall trigger activated" c in
      record c' { actions = c'.actions ++ "uninstall" ∷ [] }

  -- ProcessTriggers; a wipe is only announced.
  unfoldable pub process_triggers : AgentTriggers → Comms → Comms
  unfolding say set_lost start_uninstall
  process_triggers t c =
      let old = c.trigger_status in
      let acked = say ("triggers ack: " +++ triggers_text t) c in
      let lost_set = if differs t.lost old.lost then set_lost t.lost acked else acked in
      let uninstalled =
        if t.uninstall && not old.uninstall then start_uninstall lost_set else lost_set in
      let wiped =
        if t.wipe && not old.wipe then say "wipe trigger activated" uninstalled else uninstalled in
      record wiped { trigger_status = t }

  take_credentials : String → Comms → Comms
  take_credentials encrypted c =
      if encrypted == "" || (c.credentials_pending && not (c.credentials == ""))
      then c
      else record c { credentials = encrypted; credentials_pending = false }

  take_recovery_key : String → Comms → Comms
  take_recovery_key key c =
      if key == ""
      then c
      else record c { session = (set_private "recovery_public_key" key c.session).1 }

  -- The rest of a round once the requests are queued.
  settled : SyncAnswer → Comms → Option (Channel AgentRequest) → Option Comms
  unfolding take_credentials take_recovery_key
  settled a c none = none
  settled a c (some requests) = some (
      take_recovery_key a.recovery_public_key (
        take_credentials a.service_credentials
          (record c { requests = requests; agent_set = set_string_map a.agent_conf c.agent_set })))

  accepted : SyncAnswer → Comms → Option Comms
  unfolding settled process_triggers
  accepted a c =
      let c' =
        if any_trigger_changes a.triggers c.trigger_status
        then process_triggers a.triggers c
        else c in
      settled a c' (add_all a.requests c'.requests)

  put_back : List AgentResponse → String → Comms → Option Comms
  put_back responses info c = elim (requeue responses c.responses) [
    | none ↦ none
    | some q ↦ some (record c { responses = q; pending_recovery = info })
  ]

  -- What follows the POST; `none` is a call that did not return a body.
  concluded : List AgentResponse → String → Comms → Option (Option SyncAnswer) → Option Comms
  unfolding accepted put_back
  concluded responses info c none = put_back responses info c
  concluded responses info c (some none) = put_back responses info c
  concluded responses info c (some (some a)) =
      if nat_eq a.status_code 200 then accepted a c else put_back responses info c

  abbrev pub alerts : Bool → String → List AgentMessage
  alerts lost id =
      if lost
      then (record {
        agent_id = id;
        sent = now;
        message_type = "alert";
        message = "lost mode is active";
      })
        ∷ []
      else []

  sent_from : String → String → Comms → Option (List AgentResponse × ResponseQueue) → Option Comms
  unfolding concluded
  sent_from server id c none = none
  sent_from server id c (some (responses, emptied)) =
      let info = c.pending_recovery in
      let (answer, s) =
        post_request net server (sync_request (alerts c.lost id) responses info) c.session in
      concluded responses info
        (record c { session = s; responses = emptied; pending_recovery = "" }) answer

  -- The server's URL, after a new token where there is none.
  server_url : Try Session String
  server_url = do
    server ← get_private "server_url"
    if server == ""
        then (do
          get_token net >>= λ t. pure tt
          again ← get_private "server_url"
          if again == "" then fail else pure again)
        else pure server

  addresses : Try Session (String × String)
  unfolding server_url
  addresses = do
    server ← server_url
    id ← get_private "agent_id"
    if id == "" then fail else pure (server, id)

  addressed : Comms → Option (String × String) → Option Comms
  unfolding sent_from
  addressed c none = some c
  addressed c (some (server, id)) = sent_from server id c (read_all c.responses)

  -- Sync; `none` is a round that blocks on a queue that is full.
  unfoldable pub sync_agent : Comms → Option Comms
  unfolding addressed addresses
  sync_agent c = let (found, s) = addresses c.session in addressed (record c { session = s }) found
