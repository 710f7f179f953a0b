-- ===== src/Schema.antt =====
-- common/schema: the records that agents, the API and the database exchange. A `time.Time` is the
-- number of nanoseconds since Go's zero time; an `int` that the server only stores is a ℕ.
pub mod Values
pub mod Convert
pub use Values.{Json, Items, Fields}
use unify_em.Base.{ℕ, String, Bool, true, false, Option, none, List, [], Dict}

-- schema/requests.go; `unset` is the empty string of a fresh record
pub data RequestStatus : Type 0 where
  unset new pending complete failed invalid cancelled : RequestStatus

pub record AgentRequestRecord : Type 0 where
  pub agent_id : String
  pub request_id : String
  pub request : String
  pub requester : String
  pub ack_required : Bool
  pub parameters : Dict String
  pub status : RequestStatus
  pub time_created : ℕ
  pub last_updated : ℕ
  pub send_count : ℕ
  pub response_details : String
  pub response_data : Json
  pub was_cancelled : Bool

abbrev pub new_db_agent_request : AgentRequestRecord
new_db_agent_request = record {
  agent_id = "";
  request_id = "";
  request = "";
  requester = "";
  ack_required = false;
  parameters = [];
  status = unset;
  time_created = 0;
  last_updated = 0;
  send_count = 0;
  response_details = "";
  response_data = Json.object Fields.end;
  was_cancelled = false;
}

-- schema/apiResponses.go
pub record AgentRequest : Type 0 where
  pub created : ℕ
  pub requester : String
  pub request : String
  pub ack_required : Bool
  pub request_id : String
  pub agent_id : String
  pub parameters : Dict String

pub record AgentEvent : Type 0 where
  pub agent_id : String
  pub event_id : String
  pub time : ℕ
  pub event_type : String
  pub event : String
  pub details : Dict String

-- schema/apiRequests.go; the last two fields never leave the agent
pub record AgentResponse : Type 0 where
  pub request_id : String
  pub cmd : String
  pub response : String
  pub success : Bool
  pub payload : Option Json
  pub service_credentials : String
  pub pre_shutdown : Bool
  pub shutdown_type : String

pub record AgentRegisterRequest : Type 0 where
  pub token : String
  pub version : String
  pub build : ℕ
  pub client_public_sig : String
  pub client_public_enc : String
  pub friendly_name : String

-- schema/agents.go
pub record AgentTriggers : Type 0 where
  pub lost : Bool
  pub uninstall : Bool
  pub wipe : Bool

abbrev pub new_agent_triggers : AgentTriggers
new_agent_triggers = record { lost = false; uninstall = false; wipe = false }

pub record AgentStatus : Type 0 where
  pub last_updated : ℕ
  pub details : Dict String
  pub info : List String

pub record AgentMeta : Type 0 where
  pub agent_id : String
  pub active : Bool
  pub friendly_name : String
  pub first_seen : ℕ
  pub last_seen : ℕ
  pub last_ip : String
  pub version : String
  pub build : ℕ
  pub triggers : AgentTriggers
  pub status : Option AgentStatus
  pub tags : List String
  pub users : List String
  pub client_public_sig : String
  pub client_public_enc : String
  pub service_credentials : String
  pub recovery_info : String

abbrev pub new_agent_meta : ℕ → String → AgentMeta
new_agent_meta now id = record {
  agent_id = id;
  active = true;
  friendly_name = "";
  first_seen = now;
  last_seen = now;
  last_ip = "";
  version = "";
  build = 0;
  triggers = new_agent_triggers;
  status = none;
  tags = [];
  users = [];
  client_public_sig = "";
  client_public_enc = "";
  service_credentials = "";
  recovery_info = "";
}

-- schema/users.go
pub record UserMeta : Type 0 where
  pub user : String
  pub display_name : String
  pub email : String
  pub created_at : ℕ
  pub last_updated : ℕ

pub record UserCreateRequest : Type 0 where
  pub user : String
  pub display_name : String
  pub email : String

-- schema/roles.go
abbrev pub role_none : ℕ
role_none = 0

abbrev pub role_agent : ℕ
role_agent = 2

abbrev pub role_admin : ℕ
role_admin = 5

abbrev pub role_super_admin : ℕ
role_super_admin = 6

-- schema/tokens.go
abbrev pub token_purpose_access : String
token_purpose_access = "access"

abbrev pub token_purpose_refresh : String
token_purpose_refresh = "refresh"
