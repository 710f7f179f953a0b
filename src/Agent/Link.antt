-- ===== src/Agent/Link.antt =====
-- agent/communications: token.go, register.go, httpPost.go and message.go, the calls of the server and
-- the agent's access token. What the network answers is a parameter, by the number of the call.
pub mod Got
use unify_em.Base.{
  ℕ, suc, String, ◌≡◌, Bool, true, false, Option, none, some, List, [], ◌∷◌, if◌then◌else◌, ◌==◌,
  is_set, nat_eq, Dict,
}
use unify_em.Agent.Try.{Try, ◌>>=◌, ◌>>◌, pure, fail}
use unify_em.Schema.{AgentRegisterRequest, AgentRequest, AgentTriggers}
use unify_em.Config.Params.{Params, text, get, set}
use unify_em.Api.Sessions.{RefreshRequest, AgentSyncRequest}
use unify_em.Agent.Address.{Urls, build_url, split_token}

pub record RefreshAnswer : Type 0 where
  pub status_code : ℕ
  pub access_token : String
  pub server_public_sig : String
  pub server_public_enc : String

pub record RegisterAnswer : Type 0 where
  pub status_code : ℕ
  pub agent_id : String
  pub access_token : String
  pub refresh_token : String
  pub server_public_sig : String
  pub server_public_enc : String

pub record SyncAnswer : Type 0 where
  pub status_code : ℕ
  pub agent_conf : Dict String
  pub triggers : AgentTriggers
  pub requests : List AgentRequest
  pub service_credentials : String
  pub recovery_public_key : String

-- How a POST ends: with no response, with a status and a body that cannot be read, or with a status and
-- a body, which may not be the JSON of an answer.
pub data Wire (A : Type 0) : Type 0 where
  no_response : Wire A
  broken : ℕ → Wire A
  answered : ℕ → Option A → Wire A

pub record Net : Type 0 where
  pub urls : Urls
  pub refresh : ℕ → String → RefreshRequest → Wire RefreshAnswer
  pub register : ℕ → String → AgentRegisterRequest → Wire RegisterAnswer
  pub sync : ℕ → String → String → AgentSyncRequest → Wire SyncAnswer
  pub version : String
  pub build : ℕ

-- The part of Communications that the calls use: AP is the agent's private set, and `calls` counts the
-- calls that were made.
pub record Session : Type 0 where
  pub jwt : String
  pub retry_required : Bool
  pub agent_private : Params
  pub calls : ℕ

abbrev pub get_private : String → Try Session String
get_private key s = let (v, p) = get key s.agent_private in (some v, record s { agent_private = p })

abbrev pub set_private : String → String → Try Session (Unit {0})
set_private key v s = (some tt, record s { agent_private = set key (text v) s.agent_private })

abbrev pub set_jwt : String → Try Session (Unit {0})
set_jwt t s = (some tt, record s { jwt = t })

-- ClearToken
abbrev pub clear_token : Try Session (Unit {0})
clear_token s = (some tt, record s { jwt = ""; retry_required = true })

module _ {A : Type 0} where
  -- The body of a response, less an error; `none` is one that does not decode.
  body_of : Wire A → Try Session (Option A)
  body_of no_response = fail
  body_of (broken status) = fail
  body_of (answered status body) = pure body

  count_call : (ℕ → Wire A) → Try Session (Wire A)
  count_call send s = (some (send s.calls), record s { calls = suc s.calls })

  -- post without authentication
  post_open : Urls → String → String → (ℕ → String → Wire A) → Try Session (Option A)
  unfolding body_of count_call
  post_open U server path send = elim (build_url U server path) [
    | none ↦ fail
    | some url ↦ do wire ← count_call (λ n. send n url); body_of wire
  ]

  unauthorized_of : Wire A → Bool
  unauthorized_of no_response = false
  unauthorized_of (broken status) = nat_eq status 401
  unauthorized_of (answered status body) = nat_eq status 401

  -- post with authentication, where `token` is GetToken
  post_as :
      Urls
      → Try Session String
      → String
      → String
      → (ℕ → String → String → Wire A)
      → Try Session (Option A)
  unfolding body_of count_call unauthorized_of
  post_as U token server path send = elim (build_url U server path) [
    | none ↦ fail
    | some url ↦ do
      t ← token
      wire ← count_call (λ n. send n url t)
      if unauthorized_of wire then clear_token else pure tt
      body_of wire
  ]

module _ (net : Net) where
  -- A key is stored if it is not empty; `kept` says whether one that is there stays.
  store_key : String → String → Try Session (Unit {0})
  store_key name key = if key == "" then pure tt else set_private name key

  pin_key : String → String → Try Session (Unit {0})
  pin_key name key = if key == "" then pure tt else (do
    existing ← get_private name
    if existing == "" then set_private name key else pure tt)

  registered_as : String → String → Option RegisterAnswer → Try Session String
  unfolding store_key
  registered_as server friendly_name none = fail
  registered_as server friendly_name (some a) =
      if nat_eq a.status_code 200
      then (do
        set_private "server_url" server
        set_private "agent_id" a.agent_id
        set_private "refresh_token" a.refresh_token
        store_key "server_public_sig" a.server_public_sig
        store_key "server_public_enc" a.server_public_enc
        set_jwt a.access_token
        if friendly_name == "" then pure tt else set_private "install_friendly_name" ""
        pure a.access_token)
      else fail

  register_at : Option (String × String) → Try Session String
  unfolding registered_as post_open
  register_at none = fail
  register_at (some (server, token)) = do
    sig ← get_private "ec_public_sig"
    enc ← get_private "ec_public_enc"
    friendly_name ← get_private "install_friendly_name"
    answer ← post_open net.urls server "/api/v1/register" λ n url. net.register n url (record {
      token = token;
      version = net.version;
      build = net.build;
      client_public_sig = sig;
      client_public_enc = enc;
      friendly_name = friendly_name;
    })
    registered_as server friendly_name answer

  -- register; Checkpoint only writes files.
  unfoldable pub register_agent : Try Session String
  unfolding register_at
  register_agent = do
    token ← get_private "reg_token"
    if token == "" then fail else register_at (split_token net.urls token)

  -- A refused refresh leads to a new registration.
  refreshed_as : Option RefreshAnswer → Try Session String
  unfolding register_agent pin_key
  refreshed_as none = fail
  refreshed_as (some a) =
      if nat_eq a.status_code 200
      then (do
        pin_key "server_public_sig" a.server_public_sig
        pin_key "server_public_enc" a.server_public_enc
        pure a.access_token)
      else register_agent

  refresh_at : String → String → Try Session String
  unfolding refreshed_as post_open
  refresh_at server token = if server == "" then fail else (do
    sig ← get_private "ec_public_sig"
    enc ← get_private "ec_public_enc"
    answer ← post_open net.urls server "/api/v1/refresh" λ n url.
        net.refresh n url
          (record { refresh_token = token; client_public_sig = sig; client_public_enc = enc })
    refreshed_as answer)

  -- refreshToken
  unfoldable pub refresh_session : Try Session String
  unfolding refresh_at register_agent
  refresh_session = do
    token ← get_private "refresh_token"
    if token == ""
        then register_agent
        else (do server ← get_private "server_url"; refresh_at server token)

  new_token : Try Session String
  unfolding refresh_session
  new_token = do token ← refresh_session; set_jwt token; pure token

  unfoldable pub get_token : Try Session String
  unfolding new_token
  get_token s = if s.jwt == "" then new_token s else (some s.jwt, s)

  -- post of a sync request
  unfoldable pub post_request : String → AgentSyncRequest → Try Session (Option SyncAnswer)
  unfolding post_as
  post_request server r =
      post_as net.urls get_token server "/api/v1/sync" λ n url token. net.sync n url token r
