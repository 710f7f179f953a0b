-- ===== src/Examples/Answers.antt =====
-- Responses to requests, and the deletion of an agent.
use unify_em.Base.{
  false, agent_mismatch, ◌==◌, String, ◌≡◌, refl, false, none, some, [], ◌∷◌, err, fault, wrap,
  ◌==◌, write_failed, ◌⊎◌,
}
use unify_em.Schema.{new_agent_meta}
use unify_em.Bolt.Listed.{listed}
use unify_em.Db.Bucket.{Db, decodes, requests_bucket, agent_meta_bucket, delete_data}
use unify_em.Db.Bucket.Laws.{stored_at}
use unify_em.Db.Bucket.Every.{Every}
use unify_em.Db.Requests.{delete_agent_requests}
use unify_em.Db.Requests.Keeps.{AllRequests}
use unify_em.Db.Agents.{delete_agent_meta}
use unify_em.Db.Events.{delete_all_events}
use unify_em.Db.Keys.{validate_key}
use unify_em.Data.Sync.{SyncData, sync, process_agent_response, agent_delete}
use unify_em.Data.Sync.Isolation.{StillIs, sync_isolated}
use unify_em.Data.Sync.Answers.{Answered, response_stored}
use unify_em.Data.Sync.Deleted.{agent_delete_lem}
use unify_em.Examples.Fixtures.{ping, pong, conf, server, db_with, only_request, differ}

-- Another agent answers the request of A-1.
abbrev intruder : SyncData
intruder = record {
  remote_ip = "10.0.0.2";
  agent_id = "A-2";
  version = "1";
  build = 1;
  responses = pong ∷ [];
  recovery_info = "";
}

sync_isolated_example :
    AllRequests (StillIs ping) (sync 5 "U" server.decrypt conf intruder (db_with ping)).1
sync_isolated_example =
    sync_isolated server.decrypt conf 5 "U" intruder ping (db_with ping) (differ "A-1" "A-2" refl)
      (only_request _ ping (record { id_is_key = refl; holds = λ same. refl }))

response_stored_example :
    ((ping.agent_id == "A-1" ≡ false)
      × (process_agent_response 5 "U" server.decrypt conf "A-1" pong (db_with ping)
          ≡ (err (fault agent_mismatch), db_with ping)))
    ⊎ Answered 5 "U" server.decrypt conf "A-1" pong ping
        (db_with ping)
        (process_agent_response 5 "U" server.decrypt conf "A-1" pong (db_with ping)).1
    ⊎ (((process_agent_response 5 "U" server.decrypt conf "A-1" pong (db_with ping)).0
          ≡ err (wrap (wrap (wrap (fault write_failed)))))
        × ((key : String)
            → stored_at requests_bucket
                (process_agent_response 5 "U" server.decrypt conf "A-1" pong (db_with ping)).1
                key
              ≡ stored_at requests_bucket (db_with ping) key))
response_stored_example =
    response_stored 5 "U" server.decrypt conf "A-1" pong ping (db_with ping) (refl, refl) refl refl
      refl refl

-- A-1 with its request.
abbrev with_agent : Db
with_agent = record (db_with ping) {
  agent_meta =
      some
        (record { items = ("A-1", decodes (new_agent_meta 0 "A-1")) ∷ []; distinct = (refl, tt) });
}

agent_delete_lem_example :
    Every requests_bucket (λ key r. r.agent_id == "A-1" ≡ false) (agent_delete "A-1" with_agent).1
    × (stored_at agent_meta_bucket (agent_delete "A-1" with_agent).1 (validate_key "A-1") ≡ none)
unfolding agent_delete delete_agent_requests delete_data delete_all_events delete_agent_meta
    validate_key
agent_delete_lem_example = agent_delete_lem "A-1" with_agent refl
