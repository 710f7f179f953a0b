-- ===== src/Db/Agents.antt =====
-- server/db: agentMeta.go, agentExists.go, agentList.go, agentStatus.go. An agent's metadata stands
-- under its validated ID.
pub mod Frame
use unify_em.Base.{
  ℕ, String, Bool, true, false, Option, none, some, List, [], ◌∷◌, ◌++◌, if◌then◌else◌, Error,
  fault, wrap, Outcome, ok, err, panic, Exec, ◌>>=◌, ◌>>◌, pure, raise, wrapping, attempt, ignore,
  Result, value, error, bad_record, key_not_found, Cause, root_cause,
}
use unify_em.Schema.{AgentMeta, AgentStatus, AgentTriggers, new_agent_meta, new_agent_triggers}
use unify_em.Bolt.{Bolt}
use unify_em.Db.Bucket.{
  Db, Stored, decodes, garbage, agent_meta_bucket, set_data, get_data, check_data, delete_data,
  for_each,
}
use unify_em.Db.Keys.{validate_key}

-- Errors count as inactive.
abbrev pub active_of : Result AgentMeta → Bool
active_of (value meta) = meta.active
active_of (error e) = false

-- strings.Contains(err.Error(), "key not found")
abbrev pub is_not_found : Cause → Bool
is_not_found key_not_found = true
is_not_found _ = false

module _ ⦃B : Bolt⦄ where
  unfoldable pub set_agent_meta : AgentMeta → Exec Db (Unit {0})
  set_agent_meta meta = wrapping (set_data agent_meta_bucket (validate_key meta.agent_id) meta)

  unfoldable pub get_agent_meta : String → Exec Db AgentMeta
  get_agent_meta id = wrapping (get_data agent_meta_bucket (validate_key id))

  unfoldable pub delete_agent_meta : String → Exec Db (Unit {0})
  delete_agent_meta id = wrapping (delete_data agent_meta_bucket (validate_key id))

  unfoldable pub agent_exists : String → Exec Db (Unit {0})
  agent_exists id = wrapping (check_data agent_meta_bucket (validate_key id))

  unfoldable pub agent_active : String → Exec Db Bool
  unfolding get_agent_meta
  agent_active id = do r ← attempt (get_agent_meta id); pure (active_of r)

  or_create : ℕ → String → Result AgentMeta → Exec Db AgentMeta
  or_create now id (value meta) = pure meta
  or_create now id (error e) =
      if is_not_found (root_cause e) then pure (new_agent_meta now id) else raise e

  unfoldable pub get_or_create_agent_meta : ℕ → String → Exec Db AgentMeta
  unfolding or_create get_agent_meta
  get_or_create_agent_meta now id = do r ← attempt (get_agent_meta id); or_create now id r

  sync_meta :
      ℕ → String → String → ℕ → Result AgentMeta → Exec Db (AgentTriggers × Result (Unit {0}))
  unfolding set_agent_meta
  sync_meta now ip version build (error e) = pure (new_agent_triggers, error e)
  sync_meta now ip version build (value meta) = do
    saved ← attempt (
        set_agent_meta
          (record meta { last_seen = now; last_ip = ip; version = version; build = build }))
    pure (meta.triggers, saved)

  -- The triggers are returned beside the error, and the caller uses them in any case.
  unfoldable pub agent_sync :
      ℕ → String → String → String → ℕ → Exec Db (AgentTriggers × Result (Unit {0}))
  unfolding get_or_create_agent_meta sync_meta
  agent_sync now id ip version build = do
    meta ← attempt (get_or_create_agent_meta now id)
    sync_meta now ip version build meta

  unfoldable pub update_agent_status : ℕ → String → AgentStatus → Exec Db (Unit {0})
  unfolding get_agent_meta set_agent_meta
  update_agent_status now id status = do
    meta ← wrapping (get_agent_meta id)
    wrapping (set_agent_meta (record meta { status = some (record status { last_updated = now }) }))

  -- The callback of GetAllAgentMeta.
  listed_agent : String → Stored AgentMeta → List AgentMeta → Exec Db (List AgentMeta)
  listed_agent key (decodes meta) acc = pure (acc ++ meta ∷ [])
  listed_agent key garbage acc = raise (wrap (fault bad_record))

  unfoldable pub get_all_agent_meta : Exec Db (List AgentMeta)
  unfolding listed_agent for_each
  get_all_agent_meta = wrapping (for_each agent_meta_bucket listed_agent [])
