-- ===== src/Api/Commands.antt =====
-- server/api/cmd.go: an administrator queues a command for an agent.
pub mod Queued
pub mod Sent
use unify_em.Base.{
  ℕ, String, Bool, true, false, Option, none, some, if◌then◌else◌, Dict, lookup, Error, fault, wrap,
  root_cause, agent_id_required, Exec, ◌>>=◌, pure, attempt, Result, value, error,
}
use unify_em.Schema.{AgentRequest}
use unify_em.Bolt.{Bolt}
use unify_em.Commands.Table.{is_ack_required}
use unify_em.Commands.Validate.{Invalid, validate}
use unify_em.Db.Bucket.{Db}
use unify_em.Db.Agents.{is_not_found}
use unify_em.Data.Dispatch.{add_agent_request}
use unify_em.Api.Http.{HttpBody, JResponse, cmd_queued, ok_with, refuse, with_body}

pub record CmdRequest : Type 0 where
  pub cmd : String
  pub parameters : Dict String

-- "agent ID is required" is an error of AddAgentRequest itself; the one below it has another text.
abbrev pub wants_agent : Error → Bool
wants_agent (fault agent_id_required) = true
wants_agent _ = false

abbrev pub or_blank : Option String → String
or_blank none = ""
or_blank (some s) = s

-- The request that a command becomes; its other fields are zero.
abbrev pub requested : String → CmdRequest → AgentRequest
requested caller c = record {
  created = 0;
  requester = caller;
  request = c.cmd;
  ack_required = is_ack_required c.cmd;
  request_id = "";
  agent_id = "";
  parameters = c.parameters;
}

queued_as : CmdRequest → Result String → JResponse
queued_as c (value id) = ok_with (cmd_queued id (or_blank (lookup "agent_id" c.parameters)))
queued_as c (error e) =
    if is_not_found (root_cause e)
    then refuse 404 "agent does not exist"
    else if wants_agent e
    then refuse 400 "agent ID is required"
    else refuse 500 "unable to queue request"

module _ ⦃B : Bolt⦄ (now : ℕ) (fresh : String) (caller : String) where
  queue_valid : CmdRequest → Option Invalid → Exec Db JResponse
  unfolding queued_as
  queue_valid c (some e) = pure (refuse 400 "invalid command")
  queue_valid c none = do
    id ← attempt (add_agent_request now fresh (requested caller c))
    pure (queued_as c id)

  unfoldable pub post_cmd : HttpBody CmdRequest → Exec Db JResponse
  unfolding queue_valid with_body
  post_cmd body = with_body body λ c. queue_valid c (validate c.cmd c.parameters)
