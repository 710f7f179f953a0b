-- ===== src/Api/Routes.antt =====
-- The routes of server/api/api.go with their handlers and roles, and the wrapper of
-- common/userver/wrapper.go that authenticates a caller before the handler runs.
pub mod Guarded
use unify_em.Base.{
  ℕ, String, Bool, true, false, Option, none, some, List, [], ◌∷◌, ◌++◌, ◌||◌, if◌then◌else◌, ◌==◌,
  Outcome, ok, Dict, Exec, ◌>>=◌, pure,
}
use unify_em.Schema.{
  AgentMeta, AgentRegisterRequest, UserCreateRequest, role_agent, role_admin, role_super_admin,
}
use unify_em.Bolt.{Bolt}
use unify_em.Db.Bucket.{Db}
use unify_em.Db.Auth.{PasswordHash}
use unify_em.Data.Config.{ServerConfig}
use unify_em.Data.Token.{Jwt}
use unify_em.Data.Dispatch.{Files}
use unify_em.Base.Int.{ℤ}
use unify_em.Api.History.{EventQuery, list_events}
use unify_em.Api.Settings.{
  Sets, get_config_target, put_config_target, post_recovery_key, get_agent_recovery, get_reg_token,
  post_reg_token,
}
use unify_em.Api.Auth.{AuthDetails, AuthResult, granted, denied, authenticate}
use unify_em.Api.Http.{HttpBody, text, failure, JResponse, generic, ok_with}
use unify_em.Api.Agents.{get_agent, get_agents_by_tag, get_agent_tags, delete_agent}
use unify_em.Api.Agents.Outcomes.{Edit, edit}
use unify_em.Api.Requests.{
  get_request, get_agent_requests, delete_request, cancel_request, cancel_requests,
}
use unify_em.Api.Commands.{CmdRequest, post_cmd}
use unify_em.Api.Users.{get_users, get_user, post_user, remove_user}
use unify_em.Api.Sessions.{
  LoginRequest, RefreshRequest, AgentSyncRequest, Serving, on_db, on_sets, post_login, post_refresh,
  post_register, post_sync,
}

-- The routes whose handlers are modelled, with what the handler reads from the request.
pub data Call : Type 0 where
  ping : Call
  login : HttpBody LoginRequest → Call
  refresh : HttpBody RefreshRequest → Call
  register : HttpBody AgentRegisterRequest → Call
  sync : HttpBody AgentSyncRequest → Call
  cmd : HttpBody CmdRequest → Call
  agent_by_tag agent agent_tags agent_delete : String → Call
  agent_edit : String → Edit → Call
  request agent_requests request_delete request_cancel agent_cancel : String → Call
  user_list : Call
  user_get user_delete : String → Call
  user_add : HttpBody UserCreateRequest → Call
  config_get : String → Call
  config_put : String → HttpBody (Dict String) → Call
  recovery_key : HttpBody String → Call
  agent_recovery : String → Call
  reg_token reg_token_refresh : Call
  event_list : EventQuery → Call

-- AuthAnyRole and AuthAdmins
abbrev pub any_role : List ℕ
any_role = 1 ∷ role_agent ∷ 3 ∷ 4 ∷ role_admin ∷ role_super_admin ∷ []

abbrev pub admins : List ℕ
admins = role_admin ∷ role_super_admin ∷ []

-- The argument of the route's AuthFunc; `none` is a route without one.
unfoldable pub roles_of : Call → Option (List ℕ)
roles_of ping = some any_role
roles_of (login body) = none
roles_of (refresh body) = none
roles_of (register body) = none
roles_of (sync body) = some (role_agent ∷ [])
roles_of _ = some admins

-- What the handlers take from the libraries, the configuration, the clock and the random source.
pub record Env : Type 1 where
  pub jwt : Jwt
  pub expired : ℕ → String → Bool
  pub password_hash : PasswordHash
  pub conf : ServerConfig
  pub admin_ips : String
  pub files : Files
  pub decrypt : String → String → Option String
  pub lower : String → String
  pub visits : List String → List String
  pub now : ℕ
  pub fresh : String
  pub fresh' : String
  pub draws : List String
  pub is_ec_key : String → Bool
  pub base64 : String → String
  pub saves : Bool
  pub day : String → Option ℤ
  pub reg_draw : Option String

-- AuthFailMessage, with the status code of the wrapper
abbrev pub unauthorized : Bool → JResponse
unauthorized expired = record {
  http_code = 401;
  json_data =
      if expired
      then failure "expired" (text "token expired")
      else failure "error" (text "authentication failed");
}

module _ ⦃B : Bolt⦄ (E : Env) where
  -- A handler that always returns and touches the database only.
  abbrev replies : Exec Db JResponse → Exec Serving (Option JResponse)
  replies m = on_db (m >>= λ r. pure (some r))

  abbrev sets_reply : Exec Sets JResponse → Exec Serving (Option JResponse)
  sets_reply m = on_sets (m >>= λ r. pure (some r))

  unfoldable pub handle : Call → String → AuthDetails → Exec Serving (Option JResponse)
  handle ping ip who = pure (some (ok_with (generic "pong")))
  handle (login body) ip who =
      replies (post_login E.jwt E.conf E.now E.password_hash E.fresh E.fresh' body)
  handle (refresh body) ip who = replies (post_refresh E.jwt E.conf E.now E.fresh body)
  handle (register body) ip who =
      on_db (post_register E.jwt E.conf E.now E.draws E.fresh E.fresh' ip body)
  handle (sync body) ip who = post_sync E.files E.conf E.decrypt E.now E.fresh ip who.id body
  handle (cmd body) ip who = replies (post_cmd E.now E.fresh who.id body)
  handle (agent_by_tag tag) ip who = replies (get_agents_by_tag E.lower tag)
  handle (agent id) ip who = replies (get_agent id)
  handle (agent_tags id) ip who = replies (get_agent_tags id)
  handle (agent_delete id) ip who = replies (delete_agent id)
  handle (agent_edit id e) ip who = replies (edit E.lower E.visits id e)
  handle (request id) ip who = replies (get_request id)
  handle (agent_requests id) ip who = replies (get_agent_requests id)
  handle (request_delete id) ip who = replies (delete_request id)
  handle (request_cancel id) ip who = replies (cancel_request E.now id)
  handle (agent_cancel id) ip who = replies (cancel_requests E.now id)
  handle user_list ip who = replies get_users
  handle (user_get id) ip who = replies (get_user id)
  handle (user_delete id) ip who = replies (remove_user id)
  handle (user_add body) ip who = replies (post_user E.now body)
  handle (config_get target) ip who = sets_reply (get_config_target target)
  handle (config_put target body) ip who = sets_reply (put_config_target target body)
  handle (recovery_key body) ip who = sets_reply (post_recovery_key E.is_ec_key E.saves body)
  handle (agent_recovery id) ip who = replies (get_agent_recovery id)
  handle (event_list q) ip who = replies (list_events E.day q)
  handle reg_token ip who = sets_reply (get_reg_token E.base64)
  handle reg_token_refresh ip who = sets_reply (post_reg_token E.base64 E.saves E.reg_draw)

  -- GetAuthDetails where no caller was authenticated
  abbrev pub nobody : AuthDetails
  nobody = record { id = ""; role = 0 }

  admit : Call → String → AuthResult → Exec Serving (Option JResponse)
  admit call ip (granted who) = handle call ip who
  admit call ip (denied expired) = pure (some (unauthorized expired))

  guard : Call → String → String → String → Option (List ℕ) → Exec Serving (Option JResponse)
  unfolding admit
  guard call src ip header none = handle call ip nobody
  guard call src ip header (some roles) =
      admit call ip (authenticate E.jwt E.expired E.admin_ips E.now roles src header)

  -- Wrapper: `src` is the address that it reads itself, `ip` the one that the handler reads.
  unfoldable pub serve : Call → String → String → String → Exec Serving (Option JResponse)
  unfolding guard roles_of
  serve call src ip header = guard call src ip header (roles_of call)
