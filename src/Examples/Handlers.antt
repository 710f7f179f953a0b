-- ===== src/Examples/Handlers.antt =====
-- Calls of the API's handlers.
use mathlib.Core.List.{Memᴰ}
use unify_em.Api.Commands.Sent.{command_id, delivered, post_cmd-IsSent}
use unify_em.Db.Bucket.{garbage, requests_bucket, Db, decodes, check_data, set_data}
use unify_em.Db.Bucket.Laws.{stored_at}
use unify_em.Data.Dispatch.{
  agent_requests, with_hash, add_agent_request, new_request_id, request_agent_id,
}
use unify_em.Schema.{AgentRequest, new_agent_meta}
use unify_em.Base.{
  ◌==◌, Bool-cases, inl, inr, ◌≢◌, String, ◌≡◌, refl, true, false, none, some, [], ◌∷◌, ◌⊎◌, ok,
  List,
}
use unify_em.Bolt.Listed.{listed}
use unify_em.Db.Agents.{agent_exists}
use unify_em.Db.Keys.{validate_key}
use unify_em.Db.Requests.{set_agent_request}
use unify_em.Commands.Table.{cmds}
use unify_em.Commands.Validate.{validate}
use unify_em.Api.Http.{with_body, HttpBody, json, cmd_queued, ok_with}
use unify_em.Api.Requests.{get_request, get_agent_requests}
use unify_em.Api.Requests.Masked.{IsMasked, Shows, get_request-IsMasked}
use unify_em.Api.Commands.{CmdRequest, post_cmd}
use unify_em.Api.Agents.Edits.{Ends}
use unify_em.Api.Agents.Outcomes.{tags_add, edit, Allows, edit-Ends}
use unify_em.Api.Settings.{Sets}
use unify_em.Queue.{new_queue}
use unify_em.Api.Sessions.{Serving, AgentSyncRequest, post_sync}
use unify_em.Api.Sessions.Owned.{Grown, post_sync-Grown}
use unify_em.Api.Routes.{agent_delete, Env, serve}
use unify_em.Api.Routes.Guarded.{Refused, Granted, serve-Granted}
use unify_em.Examples.Fixtures.{conf, files, plain, ping, db_with}
use unify_em.Examples.KnownTokens.{jwt, start}

-- A file with an agent and a request.
abbrev with_agent_meta : Db
with_agent_meta = record (db_with ping) {
  agent_meta =
      some
        (record { items = ("A-1", decodes (new_agent_meta 0 "A-1")) ∷ []; distinct = (refl, tt) });
}

abbrev new_tags : HttpBody (List String)
new_tags = json ("lab" ∷ [])

edit-Ends_example :
    Ends
      (Allows (λ s. s) (λ xs. xs) with_agent_meta (tags_add new_tags))
      "A-1"
      with_agent_meta
      (edit (λ s. s) (λ xs. xs) "A-1" (tags_add new_tags) with_agent_meta)
edit-Ends_example =
    edit-Ends (λ s. s) (λ xs. xs) (λ s xs. refl) "A-1" (tags_add new_tags) with_agent_meta

get_request-IsMasked_example :
    Shows IsMasked (get_request "R-1" (db_with ping)).0
    × Shows IsMasked (get_agent_requests "R-1" (db_with ping)).0
get_request-IsMasked_example = get_request-IsMasked "R-1" (db_with ping)

abbrev ask_ping : CmdRequest
ask_ping = record { cmd = "ping"; parameters = ("agent_id", "A-1") ∷ [] }

queued :
    (post_cmd 5 "R-9" "admin" (json ask_ping) with_agent_meta).0
    ≡ ok (ok_with (cmd_queued "R-9" "A-1"))
unfolding post_cmd with_body add_agent_request agent_exists check_data set_agent_request set_data
    validate_key new_request_id request_agent_id validate cmds
queued = refl

abbrev env : Env
env = record {
  jwt = jwt;
  expired = λ now token. false;
  password_hash = plain;
  conf = conf;
  admin_ips = "127.0.0.1";
  files = files;
  decrypt = λ c k. some c;
  lower = λ s. s;
  visits = λ xs. xs;
  now = start;
  fresh = "R-9";
  fresh' = "T-9";
  draws = [];
  is_ec_key = λ s. true;
  base64 = λ s. s;
  saves = true;
  day = λ s. none;
  reg_draw = none;
}

abbrev no_settings : Sets
no_settings = record { server_set = []; agent_set = []; protected_set = [] }

abbrev serving : Serving
serving = record { db = with_agent_meta; queue = new_queue 10; sets = no_settings }

-- An agent asks for its own deletion: it is refused.
serve-Granted_example :
    Refused env "10.0.0.7" "10.0.0.7" "Bearer a" serving
      (serve env (agent_delete "A-1") "10.0.0.7" "10.0.0.7" "Bearer a" serving)
    ⊎ Granted env "10.0.0.7" "10.0.0.7" "Bearer a" serving
        (agent_delete "A-1")
        (serve env (agent_delete "A-1") "10.0.0.7" "10.0.0.7" "Bearer a" serving)
serve-Granted_example =
    serve-Granted env "10.0.0.7" "10.0.0.7" "Bearer a" serving (agent_delete "A-1") refl

all_decode : (k : String) → stored_at requests_bucket with_agent_meta k ≢ some garbage
all_decode k h = elim (Bool-cases ("R-1" == k)) [
  | inl same ↦ cc (let g : some (decodes ping) ≡ some garbage = rw same at h in g)
  | inr other ↦ cc (let g : none ≡ some garbage = rw other at h in g)
]

post_cmd-IsSent_example :
    (ok_with (cmd_queued "R-9" "A-1")
      ≡ ok_with (cmd_queued (command_id 5 "R-9" "admin" ask_ping) "A-1"))
    × ((requests : List AgentRequest) × ((agent_requests files conf 9 true "A-1"
            (post_cmd 5 "R-9" "admin" (json ask_ping) with_agent_meta).1).0
          ≡ ok requests)
        × Memᴰ (delivered 5 "R-9" "admin" ask_ping (("agent_id", "A-1") ∷ [])) requests)
unfolding with_hash
post_cmd-IsSent_example =
    post_cmd-IsSent 5 "R-9" "admin" files conf 9 true ask_ping "A-1" (("agent_id", "A-1") ∷ [])
      with_agent_meta (ok_with (cmd_queued "R-9" "A-1")) all_decode refl refl queued refl

-- An agent's message that claims to be another's.
abbrev forged : HttpBody AgentSyncRequest
forged = json (record {
  version = "1";
  build = 1;
  messages = record { agent_id = "A-2"; sent = 5; message_type = "message"; message = "up" } ∷ [];
  responses = [];
  recovery_info = "";
})

post_sync-Grown_example :
    Grown "A-1" serving.queue
      (post_sync files conf (λ c k. some c) 5 "E-1" "10.0.0.7" "A-1" forged serving).1.queue
post_sync-Grown_example =
    post_sync-Grown files conf (λ c k. some c) 5 "E-1" "10.0.0.7" "A-1" forged serving
