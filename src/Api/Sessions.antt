-- ===== src/Api/Sessions.antt =====
-- server/api/login.go, refresh.go, register.go, sync.go and tasks.go: the handlers that agents and
-- users call to get in, and the sync of an agent.
pub mod Owned
use unify_em.Base.{
  ℕ, String, true, ◌||◌, Option, none, some, List, [], ◌∷◌, if◌then◌else◌, ◌==◌, ltb, ok, Exec,
  ◌>>=◌, ◌>>◌, pure, attempt, ignore, Result, value, error,
}
use unify_em.Schema.{AgentRequest, AgentRegisterRequest, AgentResponse}
use unify_em.Bolt.{Bolt}
use unify_em.Db.Bucket.{Db}
use unify_em.Db.Agents.{agent_exists}
use unify_em.Db.Auth.{PasswordHash}
use unify_em.Db.Events.{add_event}
use unify_em.Data.Config.{ServerConfig}
use unify_em.Data.Token.{Jwt, TokenRefreshData, refresh_token, login_get_token}
use unify_em.Data.Register.{RegistrationData, register}
use unify_em.Data.Dispatch.{Files, agent_requests}
use unify_em.Data.Sync.{sync, get_service_credentials}
use unify_em.Config.Params.{get, get_map}
use unify_em.Api.Settings.{Sets}
use unify_em.Queue.{Channel, add_all, fill}
use unify_em.Api.Http.{
  HttpBody, unreadable, not_json, json, JResponse, logged_in, refreshed, registered, synced,
  ok_with, refuse, failure_response,
}

pub record LoginRequest : Type 0 where
  pub username : String
  pub password : String

pub record RefreshRequest : Type 0 where
  pub refresh_token : String
  pub client_public_sig : String
  pub client_public_enc : String

pub record AgentMessage : Type 0 where
  pub agent_id : String
  pub sent : ℕ
  pub message_type : String
  pub message : String

pub record AgentSyncRequest : Type 0 where
  pub version : String
  pub build : ℕ
  pub messages : List AgentMessage
  pub responses : List AgentResponse
  pub recovery_info : String

module _ {S : Type 0} where
  -- Every failure of a handler without authentication has one reply.
  unfoldable pub with_credentials :
      {T : Type 0} → HttpBody T → (T → Exec S JResponse) → Exec S JResponse
  with_credentials unreadable k = pure failure_response
  with_credentials not_json k = pure failure_response
  with_credentials (json t) k = k t

login_as : Result (String × String) → JResponse
login_as (value (access, refresh)) = ok_with (logged_in access refresh)
login_as (error e) = failure_response

refresh_as : Result TokenRefreshData → JResponse
refresh_as (value t) = ok_with (refreshed t)
refresh_as (error e) = failure_response

-- `none` is a draw of UUIDs that has not ended.
register_as : Result (Option RegistrationData) → Option JResponse
register_as (value none) = none
register_as (value (some r)) = some (ok_with (registered r))
register_as (error e) = some failure_response

module _ ⦃B : Bolt⦄ (J : Jwt) (conf : ServerConfig) (now : ℕ) where
  unfoldable pub post_login :
      PasswordHash → String → String → HttpBody LoginRequest → Exec Db JResponse
  unfolding login_as with_credentials
  post_login H fresh fresh' body = with_credentials body λ r.
      if r.username == "" || r.password == "" then pure failure_response else (do
        tokens ← attempt (login_get_token J conf now H fresh fresh' r.username r.password)
        pure (login_as tokens))

  unfoldable pub post_refresh : String → HttpBody RefreshRequest → Exec Db JResponse
  unfolding refresh_as with_credentials
  post_refresh fresh body = with_credentials body λ r. do
    data' ←
        attempt
          (refresh_token J conf now fresh r.refresh_token r.client_public_sig r.client_public_enc)
    pure (refresh_as data')

-- The server's state as the handlers of an agent see it.
module _ ⦃B : Bolt⦄ where
  pub record Serving : Type 0 where
    pub db : Db
    pub queue : Channel AgentMessage
    pub sets : Sets

  -- A call of the data layer.
  abbrev pub on_db : {A : Type 0} → Exec Db A → Exec Serving A
  on_db m s = let (r, d) = m s.db in (r, record s { db = d })

  abbrev pub on_sets : {A : Type 0} → Exec Sets A → Exec Serving A
  on_sets m s = let (r, sets) = m s.sets in (r, record s { sets = sets })

  -- The Get of a sync, which saves what it returns.
  read_recovery_key : Exec Serving (Unit {0})
  read_recovery_key s = (
    ok tt,
    record s {
      sets = record s.sets { server_set = (get "recovery_public_key" s.sets.server_set).1 };
    },
  )

module _ ⦃B : Bolt⦄ (J : Jwt) (conf : ServerConfig) (now : ℕ) where
  -- The draws of UUIDs come from a list; where it ends the call has not returned.
  unfoldable pub post_register :
      List String
      → String
      → String
      → String
      → HttpBody AgentRegisterRequest
      → Exec Db (Option JResponse)
  unfolding register_as
  post_register draws fresh fresh' ip unreadable = pure (some failure_response)
  post_register draws fresh fresh' ip not_json = pure (some failure_response)
  post_register draws fresh fresh' ip (json r) =
      if r.token == "" || r.version == "" || ltb r.build 1
      then pure (some failure_response)
      else (do
        done ← attempt (register J conf now draws fresh fresh' r ip)
        pure (register_as done))

-- The messages as they are queued, under the ID of the caller.
abbrev pub own_messages : String → List AgentMessage → List AgentMessage
own_messages id [] = []
own_messages id (m ∷ ms) = record m { agent_id = id } ∷ own_messages id ms

requests_of : Result (List AgentRequest) → List AgentRequest
requests_of (value rs) = rs
requests_of (error e) = []

module _ ⦃B : Bolt⦄ (files : Files) (conf : ServerConfig)
    (decrypt : String → String → Option String) (now : ℕ) (fresh ip id : String) where
  -- The data layer's part of a sync: requests are marked as sent before the responses are processed.
  data_sync : Sets → AgentSyncRequest → Exec Db JResponse
  unfolding requests_of
  data_sync sets r = do
    requests ← attempt (agent_requests files conf now true id)
    triggers ← sync now fresh decrypt conf (record {
      remote_ip = ip;
      agent_id = id;
      version = r.version;
      build = r.build;
      responses = r.responses;
      recovery_info = r.recovery_info;
    })
    credentials ← get_service_credentials id
    pure (
        ok_with (
          synced (record {
            agent_conf = get_map sets.agent_set;
            triggers = triggers;
            requests = requests_of requests;
            service_credentials = credentials;
            recovery_public_key = (get "recovery_public_key" sets.server_set).0;
          })))

  -- `none` is a handler that blocks, since the queue of messages is full; the messages that fitted are
  -- in the queue then.
  with_messages : AgentSyncRequest → Option (Channel AgentMessage) → Exec Serving (Option JResponse)
  unfolding data_sync read_recovery_key
  with_messages r none s = (ok none, record s { queue = fill (own_messages id r.messages) s.queue })
  with_messages r (some queue) s =
      let queued = record s { queue = queue } in
      if r.version == "" || ltb r.build 1
      then (ok (some (refuse 400 "missing required fields")), queued)
      else (do reply ← on_db (data_sync s.sets r); read_recovery_key; pure (some reply)) queued

  sync_body : HttpBody AgentSyncRequest → Exec Serving (Option JResponse)
  unfolding with_messages
  sync_body unreadable s = (ok (some (refuse 400 "error reading body")), s)
  sync_body not_json s = (ok (some (refuse 400 "error unmarshalling JSON")), s)
  sync_body (json r) s = with_messages r (add_all (own_messages id r.messages) s.queue) s

  sync_known : HttpBody AgentSyncRequest → Result (Unit {0}) → Exec Serving (Option JResponse)
  unfolding sync_body
  sync_known body (error e) = pure (some failure_response)
  sync_known body (value u) = sync_body body

  unfoldable pub post_sync : HttpBody AgentSyncRequest → Exec Serving (Option JResponse)
  unfolding sync_known
  post_sync body = do known ← on_db (attempt (agent_exists id)); sync_known body known

module _ ⦃B : Bolt⦄ where
  -- NewAgentMessage of server/data/agents.go
  unfoldable pub new_agent_message : String → AgentMessage → Exec Db (Unit {0})
  new_agent_message fresh m = add_event fresh (record {
    agent_id = m.agent_id;
    event_id = "";
    time = m.sent;
    event_type = "message";
    event = m.message;
    details = [];
  })

  -- ProcessMessageQueue, with a UUID for each message. No other call adds to the queue in between.
  unfoldable pub process_messages : List (String × AgentMessage) → Exec Db (Unit {0})
  process_messages [] = pure tt
  process_messages ((fresh, m) ∷ ms) = do ignore (new_agent_message fresh m); process_messages ms
