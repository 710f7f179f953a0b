-- ===== src/Agent.antt =====
-- agent/functions/functions.go: the agent runs a request. A handler is given a state of the agent, which
-- it may change; what it does to the machine is outside of the model.
pub mod Executes
pub mod Try
pub mod Address
pub mod Link
pub mod Rounds
pub mod Recovery
pub mod Timing
pub mod Tasks
use Prim.Native.String.{◌++◌ as ◌+++◌}
use unify_em.Base.{
  String, ◌≡◌, Bool, true, false, Option, none, some, List, [], ◌∷◌, if◌then◌else◌, contains,
}
use unify_em.Schema.{AgentRequest, AgentResponse}
use unify_em.Commands.Validate.{
  Invalid, invalid_command, missing_argument, invalid_argument, validate,
}

-- CmdHandler: the response, the text of the error, and the state afterwards.
pub record CmdHandler (S : Type 0) : Type 0 where
  pub cmd : AgentRequest → S → (AgentResponse × Option String) × S

-- The names for which New adds a handler.
abbrev pub handled : List String
handled =
    "download_execute" ∷ "execute" ∷ "status" ∷ "ping" ∷ "reboot" ∷ "shutdown" ∷ "upgrade"
    ∷ "refresh_service_account" ∷ "user_list" ∷ "user_add" ∷ "user_delete" ∷ "user_admin"
    ∷ "user_password" ∷ "user_lock" ∷ "user_unlock" ∷ []

-- The text of a Validate error.
abbrev pub invalid_text : Invalid → String
invalid_text invalid_command = "invalid command"
invalid_text (missing_argument arg) = "missing required argument: " +++ arg
invalid_text (invalid_argument param) = "invalid argument: " +++ param

-- The response that a request gets when no handler runs.
abbrev pub refused : AgentRequest → String → AgentResponse
refused r text = record {
  request_id = r.request_id;
  cmd = r.request;
  response = text;
  success = false;
  payload = none;
  service_credentials = "";
  pre_shutdown = false;
  shutdown_type = "";
}

-- The response of a handler, with its success set by the error.
abbrev pub finished : AgentResponse × Option String → AgentResponse
finished (resp, none) = record resp { success = true }
finished (resp, some text) = record resp {
  response = "command execution failed: " +++ text;
  success = false;
}

module _ {S : Type 0} (handlers : String → CmdHandler S) where
  ended : (AgentResponse × Option String) × S → AgentResponse × S
  ended (p, s) = (finished p, s)

  dispatch : AgentRequest → Option Invalid → S → AgentResponse × S
  unfolding ended
  dispatch r (some e) s = (
    refused r ("command validation for " +++ (r.request +++ (" failed: " +++ invalid_text e))),
    s,
  )
  dispatch r none s =
      if contains r.request handled
      then ended ((handlers r.request).cmd r s)
      else (refused r ("command not found: " +++ r.request), s)

  unfoldable pub execute_request : AgentRequest → S → AgentResponse × S
  unfolding dispatch
  execute_request r s = dispatch r (validate r.request r.parameters) s
