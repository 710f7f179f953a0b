-- ===== src/Examples/Rounds.antt =====
-- A round of an agent whose server does not answer.
use unify_em.Base.{ℕ, String, ◌≡◌, refl, none, some, [], ◌∷◌, false, true, arith}
use unify_em.Schema.{AgentTriggers, new_agent_triggers}
use unify_em.Config.Params.{new_element}
use unify_em.Queue.{new_queue}
use unify_em.Agent.Link.{Net, no_response}
use unify_em.Agent.Rounds.{Comms}
use unify_em.Queue.Responses.{ResponseQueue}
use unify_em.Commands.Table.{cmds}
use unify_em.Commands.Validate.{validate}
use unify_em.Agent.{CmdHandler, execute_request}
use unify_em.Base.Int.{atoi}
use unify_em.Config.Params.{get, enforce}
use unify_em.Agent.Recovery.{Machine, set_service_credentials, own_service_credentials}
use unify_em.Agent.Recovery.Credentials.{own-set_credentials}
use unify_em.Agent.Tasks.{Access, process_requests}
use unify_em.Agent.Tasks.Handled.{worked_off, process_requests_lem}
use unify_em.Examples.Fixtures.{pong, ask}

abbrev two : ResponseQueue
two = record {
  queue = record (new_queue 10) { items = pong ∷ (record pong { cmd = "status" }) ∷ [] };
  status_pending = true;
}

abbrev off_line : Net
off_line = record {
  urls = record {
    parse_url = λ s. some (record {
      scheme = "https";
      host = s;
      path = "";
      raw_query = "";
      fragment = "";
      rest = "";
    });
    url_text = λ u. u.host;
    token_data = λ s. none;
  };
  refresh = λ n url r. no_response;
  register = λ n url r. no_response;
  sync = λ n url token r. no_response;
  version = "1";
  build = 1;
}

abbrev comms : Comms
comms = record {
  session = record {
    jwt = "a";
    retry_required = false;
    agent_private =
        ("server_url", record new_element { value = "uem" })
        ∷ ("agent_id", record new_element { value = "A-1" })
        ∷ [];
    calls = 0;
  };
  agent_set = [];
  responses = two;
  requests = new_queue 10;
  pending_recovery = "";
  trigger_status = new_agent_triggers;
  lost = false;
  credentials = "";
  credentials_pending = false;
  actions = [];
  runs = 0;
}

abbrev no_text : AgentTriggers → String
no_text t = ""

abbrev machine : Machine
machine = record {
  have_service_account = true;
  os = "darwin";
  hostname = "mac";
  bit_locker_info = "";
  encrypt = λ s key. some s;
  decrypt = λ s key. some s;
  key_hash = λ s. s;
  info_text = λ i. some i.service_account;
}

-- Each run leaves new credentials that wait to be sent.
abbrev handlers : ℕ → String → CmdHandler Access
handlers k name = record {
  cmd = λ r s. ((pong, none), record s { credentials = "new"; credentials_pending = true });
}

abbrev asked : Comms
asked = record comms { requests = record (new_queue 10) { items = ask ∷ ask ∷ [] } }

process_requests_lem_example :
    process_requests off_line no_text machine handlers 5 3 asked ≡ some (worked_off handlers asked)
unfolding execute_request validate cmds
process_requests_lem_example =
    process_requests_lem handlers off_line no_text machine 5 3 asked (refl, (refl, tt))
      (omega arith) (omega arith)

abbrev keyed : Comms
keyed = record comms {
  session = record comms.session {
    agent_private =
        ("ec_public_enc", record new_element { value = "public" })
        ∷ ("ec_private_enc", record new_element { value = "private" })
        ∷ [];
  };
}

own-set_credentials_example :
    ((set_service_credentials machine "uem" "a:b" keyed).0 ≡ some tt)
    × ((own_service_credentials machine (set_service_credentials machine "uem" "a:b" keyed).1).0
        ≡ some ("uem", "a:b"))
unfolding get enforce atoi
own-set_credentials_example =
    own-set_credentials machine "uem" "a:b" "uem:a:b" keyed refl refl refl refl refl refl refl
