-- ===== src/Api/Http.antt =====
-- What the handlers of server/api take and return: common/userver/schema.go and the replies of
-- common/schema. The `status` and `code` of a successful reply, "ok" and 200, are left out.
use unify_em.Base.{
  ℕ, String, List, Dict, Error, Exec, pure, if◌then◌else◌, ◌==◌, Cause, key_not_found,
  bucket_not_found, user_exists, Bool, true, false,
}
use unify_em.Schema.{
  AgentMeta, AgentRequestRecord, AgentRequest, AgentTriggers, AgentEvent, UserMeta,
}
use unify_em.Data.Token.{TokenRefreshData}
use unify_em.Data.Register.{RegistrationData}

-- io.ReadAll and json.Unmarshal of a request's body.
pub data HttpBody (T : Type 0) : Type 0 where
  unreadable not_json : HttpBody T
  json : T → HttpBody T

-- The details of a failure: a text, one that ends with the text of an error, or one that ends with the
-- text of an error of Go's library, which is left out.
pub data Details : Type 0 where
  text of_library : String → Details
  caused : String → Error → Details

pub record SyncReply : Type 0 where
  pub agent_conf : Dict String
  pub triggers : AgentTriggers
  pub requests : List AgentRequest
  pub service_credentials : String
  pub recovery_public_key : String

-- API400, API401, API404 and API500 have one structure, here with its status.
pub data Reply : Type 0 where
  failure : String → Details → Reply
  generic : String → Reply
  agent_info agents_by_tag : List AgentMeta → Reply
  agent_tags agent_users : List String → Reply
  request_status : List AgentRequestRecord → Reply
  user_list : String → List UserMeta → Reply
  user_created : UserMeta → Reply
  user_deleted : Reply
  cmd_queued : String → String → Reply
  logged_in : String → String → Reply
  refreshed : TokenRefreshData → Reply
  registered : RegistrationData → Reply
  synced : SyncReply → Reply
  events : List AgentEvent → Reply
  config_set : String → String → Dict String → Reply
  recovery : String → Reply

pub record JResponse : Type 0 where
  pub http_code : ℕ
  pub json_data : Reply

abbrev pub ok_with : Reply → JResponse
ok_with r = record { http_code = 200; json_data = r }

abbrev pub refuse : ℕ → String → JResponse
refuse code details = record { http_code = code; json_data = failure "error" (text details) }

-- failureResponse of login.go
abbrev pub failure_response : JResponse
failure_response = refuse 401 "authentication failed"

-- strings.Contains(err.Error(), "not found")
abbrev pub names_missing : Cause → Bool
names_missing key_not_found = true
names_missing bucket_not_found = true
names_missing _ = false

-- strings.Contains(err.Error(), "exists")
abbrev pub names_existing : Cause → Bool
names_existing user_exists = true
names_existing _ = false

module _ {S : Type 0} where
  -- The two checks of a body, and what is done with a body that decodes.
  unfoldable pub with_body : {T : Type 0} → HttpBody T → (T → Exec S JResponse) → Exec S JResponse
  with_body unreadable k = pure (refuse 400 "error reading body")
  with_body not_json k = pure (refuse 400 "error unmarshalling JSON")
  with_body (json t) k = k t

  -- userver.GetParam, where an empty parameter is refused
  unfoldable pub with_param : String → String → (String → Exec S JResponse) → Exec S JResponse
  with_param missing param k = if param == "" then pure (refuse 400 missing) else k param
