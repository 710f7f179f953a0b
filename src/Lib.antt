-- ===== src/Lib.antt =====
-- UnifyEM's server: what it stores about agents, requests, accounts and users, and what an agent's or
-- an administrator's call does to it.
--
-- The program. An administrator queues requests for agents through the HTTP API. Each agent syncs from
-- time to time: the server processes the responses that the agent brings (server/data/sync.go), and
-- answers with the requests that are due (server/data/requests.go). Commands are validated by one table
-- that the server and the agents share (common/schema/commands). Agents register with a token, and
-- agents and users refresh their access tokens (server/data/register.go, token.go, auth.go). All of it
-- is stored as JSON in the buckets of a bbolt file (server/db).
--
-- The modules.
--   Base: tests on numbers and strings, association lists, and `Exec`, code that threads a state and
--     returns a value, returns an error or panics. Base.Ensures is the logic of invariants and
--     Base.Inversion the inversion of a bind. Base.Decimal is decimal text, and Base.Int the integers of
--     the settings with strconv.Atoi.
--   Bolt: a bucket of bbolt, as an interface with laws; a write or a delete may fail. Bolt.Listed is an
--     instance. Every operation and theorem takes the bucket as an instance argument.
--   Schema: common/schema. Schema.Convert is convert.go.
--   Db: server/db. Db.Bucket is bucket.go and db.go, with the read and write of one key in Bucket.Laws
--     invariants of a bucket's records in Bucket.Every, and the map that a bucket stands for in
--     Bucket.Store. Db.Requests is agentRequest.go and
--     requestList.go; Db.Agents agentMeta.go, agentExists.go, agentList.go and agentStatus.go; Db.Prune
--     agentPrune.go; Db.Auth auth.go, over the hash of Db.Hash, hash.go; Db.Events with Events.Query and Events.Prune events.go;
--     Db.Keys keys.go.
--   Commands: common/schema/commands, the table and Validate.
--   Data: server/data. Data.Dispatch is requests.go and hash.go; Data.Sync sync.go and the deletion and
--     recovery part of agents.go; Data.Token token.go and auth.go; Data.Register register.go;
--     Data.Users users.go; Data.Prune prune.go. Data.Lifecycle puts the operations that change requests
--     into sequences.
--   Api: server/api. Api.Auth is auth.go, the check of a caller's token, role and address; Api.Http what
--     the handlers take and reply; Api.Agents agent.go; Api.Requests request.go; Api.Commands cmd.go;
--     Api.Users user.go; Api.Sessions login.go, refresh.go, register.go, sync.go and tasks.go;
--     Api.Settings config.go, recovery.go and regtoken.go; Api.History events.go. Api.Routes puts them
--     together: the routes of api.go with their roles, behind the wrapper of common/userver/wrapper.go.
--   Config: common/uconfig/params, the sets of parameters with their defaults and limits.
--     Config.Defaults is the defaults of common/schema/agentConfig.go and of the two global/defaults.go.
--   Queue: server/queue and agent/queues, queues in memory.
--   Agent: ExecuteRequest of agent/functions/functions.go. Agent.Address, Agent.Link and Agent.Rounds are
--     agent/communications: the server's address, the token and the calls, and a round with its triggers.
--     Agent.Tasks and Agent.Timing are agent/main.go, a tick of the service, and Agent.Recovery the
--     credentials of agent/global/config.go with the recovery information.
--   Cache: common/cache, a cache with expiry.
--   Examples: each theorem applied to a small server.
--
-- How the model reads the code. The database is the state. `Db` has a field for each top-level bucket,
-- and a stored value is either what its JSON decodes to or bytes that do not decode. A function of the
-- code keeps its name in lower case with underscores: GetAgentRequests of server/data is
-- `agent_requests`, AgentSync of server/data is `sync`, UserExists `check_user_exists`, DeleteUser
-- `delete_user`. A handler keeps its name too (postCmd is `post_cmd`), but for deleteUser and
-- getEvents of server/api, which are `remove_user` and `list_events`. Log calls are left out, but
-- for those of the database's own logger in the prune functions, which is nil. An error keeps the
-- Go text as a constructor of `Cause`, below a `wrap` for each prefix. What the code draws, the
-- time and UUIDs, is an argument.
--
-- Each operation runs alone: two API calls that interleave between their transactions are not covered.
-- A bbolt callback that writes while the read transaction is open is modelled as seeing the snapshot,
-- as bbolt documents; that it may deadlock is not modelled. Time is in nanoseconds since Go's zero
-- time, without overflow, and a retention of n days is n times 24 hours. Loops run over lists and need
-- no fuel; `generate_agent_id` draws from a list of UUIDs, which must hold a free ID. On fuel are
-- ReadAll, which is given fuel for the responses that wait, and processRequests, for which fuel for
-- one more than the requests that wait is enough where none of them asks for a shutdown.
--
-- Parameters, with what is assumed of them: the bucket (the laws of `Bolt`), below the password
-- hash scrypt and raw base64 (it decodes what it encodes, without a dollar sign), the JWT
-- library (a token is accepted if and only if it was signed with this key and is in force), and
-- the order in which `range` visits a map (it visits each key); of the files of the file
-- server, the decryption of service credentials, the encryption for an agent, strings.ToLower,
-- the base64 of Api.Settings, time.Parse, url.Parse, what the network answers to an agent, the
-- test for an EC key and the write of the settings file nothing is assumed. A handler is given
-- the body of its call as what it decodes to. Of the settings, the handlers of Api.Settings see
-- the sets themselves; the others take the values that the settings have at the call.
-- The agent's command handlers are a parameter too: a handler may change the session, the settings
-- and the credentials, and may answer differently on each run, but it returns.
--
-- Not modelled: the handlers of files.go and report.go, start-up and installation,
-- configuration files and the registry, the commands and downloads of the agent and the ticker
-- that starts its tasks, the command line, and the libraries of common other than the schema,
-- the cache and the parameters: most of it is input and output.
mod Base
pub mod Bolt
pub mod Schema
pub mod Db
pub mod Commands
pub mod Cache
pub mod Config
pub mod Queue
pub mod Data
pub mod Api
pub mod Agent
pub mod Examples
