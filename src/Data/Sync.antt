-- ===== src/Data/Sync.antt =====
-- server/data/sync.go and server/data/agents.go: what the server does with an agent's sync.
pub mod Keeps
pub mod Isolation
pub mod Answers
pub mod Deleted
use unify_em.Base.{
  ℕ, String, ◌≡◌, Bool, true, false, Option, none, some, List, [], ◌∷◌, ◌&&◌, if◌then◌else◌, Dict,
  insert, lookup, has_key, ◌==◌, is_set, Exec, ◌>>=◌, ◌>>◌, pure, raise, lift, ignore, attempt,
  wrapping, wrapped, Result, value, error, Outcome, ok, err, panic, Error, fault, wrap,
  agent_mismatch, nil_data, no_credentials, no_private_key, decrypt_failed,
}
use unify_em.Schema.{
  AgentMeta, AgentTriggers, AgentStatus, AgentEvent, AgentResponse, AgentRequestRecord,
  RequestStatus, complete, failed,
}
use unify_em.Schema.Values.{Json, null, object}
use unify_em.Schema.Convert.{convert_agent_status_data, convert_map_string, AgentStatusData}
use unify_em.Bolt.{Bolt}
use unify_em.Db.Bucket.{Db}
use unify_em.Db.Requests.{set_agent_request, get_agent_request, delete_agent_requests}
use unify_em.Db.Agents.{
  set_agent_meta, get_agent_meta, delete_agent_meta, update_agent_status, agent_sync,
}
use unify_em.Db.Events.{add_event, delete_all_events}
use unify_em.Data.Config.{ServerConfig}

-- The record that a response leaves behind.
abbrev pub redacted : Dict String → Dict String
redacted params = if has_key "password" params then insert "password" "********" params else params

abbrev json_of : Option Json → Json
json_of none = null
json_of (some j) = j

unfoldable pub answered : AgentRequestRecord → AgentResponse → AgentRequestRecord
answered r resp = record r {
  response_details = resp.response;
  status = if resp.success then complete else failed;
  response_data = json_of resp.payload;
  parameters = redacted r.parameters;
}

abbrev map_logged : Outcome (Dict String) → Outcome (Unit {0})
map_logged (ok m) = ok tt
map_logged (err e) = err (wrap e)
map_logged panic = panic

-- queueResponse only logs; an object is converted for that.
queue_response : AgentResponse → Outcome (Unit {0})
queue_response resp = elim resp.payload [
  | some (object fs) ↦ map_logged (convert_map_string (object fs))
  | _ ↦ ok tt
]

status_of : Option Json → Outcome AgentStatusData
status_of none = err (fault nil_data)
status_of (some j) = wrapped (convert_agent_status_data j)

pub record SyncData : Type 0 where
  pub remote_ip : String
  pub agent_id : String
  pub version : String
  pub build : ℕ
  pub responses : List AgentResponse
  pub recovery_info : String

module _ ⦃B : Bolt⦄ (now : ℕ) (fresh : String) where
  agent_status : String → AgentResponse → Exec Db (Unit {0})
  unfolding status_of
  agent_status id resp = do
    s ← lift (status_of resp.payload)
    wrapping (
        add_event fresh (record {
          agent_id = id;
          event_id = "";
          time = now;
          event_type = "status";
          event = "status";
          details = s.details;
        }))
    wrapping (
        update_agent_status now id
          (record { last_updated = now; details = s.details; info = s.info }))

  -- The branch of a response to a request of the server, once the request is read.
  answer : String → AgentResponse → AgentRequestRecord → Exec Db (Unit {0})
  unfolding agent_status queue_response
  answer id resp r =
      if r.agent_id == id
      then (do
        wrapping (set_agent_request now (answered r resp))
        if resp.cmd == "status" then agent_status id resp else pure tt
        lift (queue_response resp))
      else raise (fault agent_mismatch)

  module _ (decrypt : String → String → Option String) (conf : ServerConfig) where
    store_credentials : String → Option String → Exec Db (Unit {0})
    store_credentials id none = raise (wrap (fault decrypt_failed))
    store_credentials id (some plain) = do
      meta ← wrapping (get_agent_meta id)
      wrapping (set_agent_meta (record meta { service_credentials = plain }))

    unfoldable pub process_service_credentials : String → AgentResponse → Exec Db (Unit {0})
    unfolding store_credentials
    process_service_credentials id resp =
        if resp.service_credentials == ""
        then raise (fault no_credentials)
        else if conf.ec_private_enc == ""
        then raise (fault no_private_key)
        else store_credentials id (decrypt resp.service_credentials conf.ec_private_enc)

    unfoldable pub process_agent_response : String → AgentResponse → Exec Db (Unit {0})
    unfolding answer
    process_agent_response id resp =
        if resp.request_id == "status"
        then (do agent_status id resp; lift (queue_response resp))
        else if resp.request_id == "none" && resp.cmd == "refresh_service_account"
        then (do process_service_credentials id resp; lift (queue_response resp))
        else (do r ← wrapping (get_agent_request resp.request_id); answer id resp r)

    -- The loop over the responses; an error is logged and the next one is processed.
    process_all : String → List AgentResponse → Exec Db (Unit {0})
    process_all id [] = pure tt
    process_all id (resp ∷ rest) = do ignore (process_agent_response id resp); process_all id rest

    store_recovery : String → Result AgentMeta → Exec Db (Unit {0})
    store_recovery info (error e) = pure tt
    store_recovery info (value meta) =
        ignore (set_agent_meta (record meta { recovery_info = info }))

    -- Recovery info is stored where the agent's metadata can be read.
    keep_recovery : SyncData → Exec Db (Unit {0})
    unfolding store_recovery
    keep_recovery s =
        if s.recovery_info == ""
        then pure tt
        else (do meta ← attempt (get_agent_meta s.agent_id); store_recovery s.recovery_info meta)

    unfoldable pub sync : SyncData → Exec Db AgentTriggers
    unfolding process_all keep_recovery
    sync s = do
      (triggers, saved) ← agent_sync now s.agent_id s.remote_ip s.version s.build
      process_all s.agent_id s.responses
      keep_recovery s
      pure triggers

module _ ⦃B : Bolt⦄ where
  -- AgentDelete; the error of DeleteAllEvents is overwritten.
  unfoldable pub agent_delete : String → Exec Db (Unit {0})
  agent_delete id = do delete_agent_requests id; ignore (delete_all_events id); delete_agent_meta id

  unfoldable pub set_agent_recovery_info : String → String → Exec Db (Unit {0})
  set_agent_recovery_info id info = do
    meta ← wrapping (get_agent_meta id)
    set_agent_meta (record meta { recovery_info = info })

  abbrev recovery_of : Result AgentMeta → String
  recovery_of (value meta) = meta.recovery_info
  recovery_of (error e) = ""

  unfoldable pub get_agent_recovery_info : String → Exec Db String
  get_agent_recovery_info id = do meta ← attempt (get_agent_meta id); pure (recovery_of meta)

  abbrev credentials_of : Result AgentMeta → String
  credentials_of (value meta) = meta.service_credentials
  credentials_of (error e) = ""

  unfoldable pub get_service_credentials : String → Exec Db String
  get_service_credentials id = do meta ← attempt (get_agent_meta id); pure (credentials_of meta)
