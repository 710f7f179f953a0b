-- ===== src/Examples/AgentRun.antt =====
-- A ping that is queued, dispatched and run.
use unify_em.Base.{String, All, none, true}
use unify_em.Base.Ensures.{OnOk}
use unify_em.Bolt.Listed.{listed}
use unify_em.Data.Dispatch.{agent_requests}
use unify_em.Agent.{CmdHandler}
use unify_em.Agent.Executes.{Runs, dispatched_run}
use unify_em.Examples.Fixtures.{ping, pong, files, conf, db_with}

abbrev handlers : String → CmdHandler (Unit {0})
handlers name = record { cmd = λ r s. ((pong, none), s) }

dispatched_run_example :
    OnOk (All (Runs handlers)) (agent_requests files conf 6 true "A-1" (db_with ping)).0
dispatched_run_example = dispatched_run handlers files conf 6 true "A-1" (db_with ping)
