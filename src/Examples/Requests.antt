-- ===== src/Examples/Requests.antt =====
-- Requests that are queued, sent, closed, cancelled, deleted and pruned.
use unify_em.Base.{◌<◌, ◌≡◌, ◌≢◌, refl, true, some, List, [], ◌∷◌, All, ok, panic, arith}
use unify_em.Base.Ensures.{OnOk}
use unify_em.Schema.{AgentRequest, AgentRequestRecord, cancelled}
use unify_em.Commands.Table.{cmds}
use unify_em.Commands.Validate.{validate}
use unify_em.Data.Dispatch.Spec.Counted.{IsCounted}
use Prim.Native.Nat.{max}
use mathlib.Core.List.{Memᴰ}
use unify_em.Bolt.Listed.{listed}
use unify_em.Db.Bucket.{decodes, requests_bucket, open_db, set_data}
use unify_em.Db.Bucket.Laws.{stored_at}
use unify_em.Db.Requests.{cancel_agent_request, prune_agent_requests}
use unify_em.Db.Requests.Keeps.{AllRequests}
use unify_em.Db.Requests.Reads.{owned}
use unify_em.Db.Requests.Deletes.{cancel_lem}
use unify_em.Db.Requests.Prunes.{prune-open_db}
use unify_em.Data.Dispatch.{agent_requests, new_request_id, to_agent, selected, with_hash}
use unify_em.Data.Dispatch.Spec.{offered, choose, agent_requests_lem}
use unify_em.Data.Lifecycle.{Operation, add, dispatch, cancel, cancel_all, run}
use unify_em.Data.Lifecycle.Closed.{ClosedAt, AddsOther, closed_never_reopens}
use unify_em.Data.Lifecycle.Tries.{tries_bounded}
use unify_em.Data.Lifecycle.Origin.{FromOrigin, origin_fixed}
use unify_em.Examples.Fixtures.{ping, ask, server, files, conf, db_with, only_request, differ}

abbrev closed_ping : AgentRequestRecord
closed_ping = record ping { status = cancelled }

abbrev ops : List Operation
ops = add 5 "U" ask ∷ dispatch 6 true "A-1" ∷ cancel 7 "R-1" ∷ cancel_all 8 "A-1" ∷ []

others : All (AddsOther "R-1") ops
unfolding new_request_id
others = (differ "R-2" "R-1" refl, (tt, (tt, (tt, tt))))

closed_never_reopens_example :
    AllRequests (ClosedAt "R-1") (run server ops (db_with closed_ping))
    × OnOk
        (All (λ a. a.request_id ≢ "R-1"))
        (agent_requests server.files server.conf 9 true "A-1"
          (run server ops (db_with closed_ping))).0
closed_never_reopens_example =
    closed_never_reopens "R-1" server ops (db_with closed_ping) 9 true "A-1" others
      (only_request _ closed_ping (record { id_is_key = refl; holds = λ same. refl }))

abbrev sent_pings : List AgentRequest
sent_pings = choose (offered server.files server.conf 6) (owned "A-1" (ping ∷ []))

tries_bounded_example :
    (c : IsCounted server.files server.conf 6 true "A-1"
      (run server [] (db_with ping))
      (to_agent ping ping.parameters))
    × (c.before.send_count < max 1 server.conf.request_retries)
unfolding run selected with_hash validate cmds
tries_bounded_example =
    tries_bounded server [] (db_with ping)
      (only_request _ ping (record { id_is_key = refl; holds = (λ n. refl, omega arith) })) 6 true
      "A-1" _ (ping ∷ []) (to_agent ping ping.parameters) sent_pings refl refl refl refl
      (λ b v. refl)
      (agent_requests_lem server.files server.conf 6 true "A-1" (db_with ping) _ (ping ∷ []) refl
        refl)
      (Memᴰ.head refl)

origin_fixed_example : AllRequests (FromOrigin ping) (run server ops (db_with ping))
origin_fixed_example = origin_fixed ping server ops (db_with ping) others (
    only_request _ ping
      (record { id_is_key = refl; holds = λ same. (refl, refl, refl, refl, refl) }))

agent_requests_lem_example :
    (agent_requests files conf 6 true "A-1" (db_with ping)).0
    ≡ ok (choose (offered files conf 6) (owned "A-1" (ping ∷ [])))
agent_requests_lem_example =
    agent_requests_lem files conf 6 true "A-1" (db_with ping) _ (ping ∷ []) refl refl

cancel_lem_example :
    stored_at requests_bucket (cancel_agent_request 7 "R-1" (db_with ping)).1 "R-1"
    ≡ some (decodes (record ping { status = cancelled; last_updated = 7 }))
unfolding cancel_agent_request set_data
cancel_lem_example = cancel_lem 7 "R-1" ping (db_with ping) refl refl refl refl refl "R-1"

prune-open_db_example :
    (prune_agent_requests 5000000000000000 30 (open_db (db_with ping))).0 ≡ panic
prune-open_db_example = prune-open_db 5000000000000000 30 (db_with ping)
