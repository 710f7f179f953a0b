-- ===== src/Api/Agents.antt =====
-- server/api/agent.go: the handlers that read and change agents. `lower` is strings.ToLower, and
-- `visits` the order in which `range` visits a map that was filled in a given order.
pub mod Tags
pub mod Edits
pub mod Outcomes
use Prim.Native.String.{◌++◌ as ◌+++◌}
use unify_em.Base.{
  ℕ, String, Bool, true, false, not, Option, none, some, List, [], ◌∷◌, ◌++◌, ◌||◌, if◌then◌else◌,
  ◌==◌, is_set, contains, Exec, ◌>>=◌, ◌>>◌, pure, attempt, Result, value, error, root_cause,
}
use unify_em.Schema.{AgentMeta, AgentTriggers, new_agent_triggers}
use unify_em.Bolt.{Bolt}
use unify_em.Db.Bucket.{Db}
use unify_em.Db.Agents.{get_all_agent_meta, get_agent_meta, set_agent_meta, is_not_found}
use unify_em.Data.Sync.{agent_delete}
use unify_em.Data.Users.{check_user_exists}
use unify_em.Api.Http.{
  HttpBody, Details, text, caused, Reply, failure, generic, agent_info, agents_by_tag, agent_tags,
  agent_users, JResponse, ok_with, refuse, with_body, with_param,
}

-- set[t] = struct{}{}, with the keys in the order in which they were first set
abbrev pub add_key : List String → String → List String
add_key set t = if contains t set then set else set ++ t ∷ []

abbrev pub add_keys : List String → List String → List String
add_keys set [] = set
add_keys set (t ∷ ts) = add_keys (add_key set t) ts

-- The requested keys, less the empty one.
abbrev pub add_requested : List String → List String → List String
add_requested set [] = set
add_requested set (t ∷ ts) = add_requested (if is_set t then add_key set t else set) ts

-- The elements whose name is not in the set.
abbrev pub without : (String → String) → List String → List String → List String
without name removed [] = []
without name removed (t ∷ ts) =
    let rest = without name removed ts in if contains (name t) removed then rest else t ∷ rest

abbrev pub map_names : (String → String) → List String → List String
map_names name [] = []
map_names name (t ∷ ts) = name t ∷ map_names name ts

-- The metadata that postAgent stores: a name that is given, and each trigger that is set.
abbrev pub updated : AgentMeta → AgentMeta → AgentMeta
updated sent meta = record meta {
  friendly_name = if is_set sent.friendly_name then sent.friendly_name else meta.friendly_name;
  triggers = record {
    lost = sent.triggers.lost || meta.triggers.lost;
    wipe = sent.triggers.wipe || meta.triggers.wipe;
    uninstall = sent.triggers.uninstall || meta.triggers.uninstall;
  };
}

module _ (lower : String → String) where
  has_tag : String → List String → Bool
  has_tag tag [] = false
  has_tag tag (t ∷ ts) = lower t == lower tag || has_tag tag ts

  pub tagged : String → List AgentMeta → List AgentMeta
  unfolding has_tag
  tagged tag [] = []
  tagged tag (a ∷ agents) =
      let rest = tagged tag agents in if has_tag tag a.tags then a ∷ rest else rest

  matched : List AgentMeta → JResponse
  matched [] = refuse 404 "no agents found with tag"
  matched (a ∷ agents) = ok_with (agents_by_tag (a ∷ agents))

  by_tag : String → Result (List AgentMeta) → JResponse
  unfolding tagged matched
  by_tag tag (error e) = refuse 500 "error retrieving agents"
  by_tag tag (value agents) =
      if lower tag == "all" then ok_with (agents_by_tag agents) else matched (tagged tag agents)

listed_agents : Result (List AgentMeta) → JResponse
listed_agents (value agents) = ok_with (agent_info agents)
listed_agents (error e) = refuse 500 "error retrieving agents"

specified_agent : Result (List AgentMeta) → JResponse
specified_agent (value agents) = ok_with (agent_info agents)
specified_agent (error e) =
    if is_not_found (root_cause e) then refuse 404 "agent not found" else record {
      http_code = 500;
      json_data = failure "error" (caused "error retrieving agent: " e);
    }

-- How a SetAgentMeta at the end of a handler is answered.
saved_as : String → Reply → Result (Unit {0}) → JResponse
saved_as details reply (value u) = ok_with reply
saved_as details reply (error e) = refuse 500 details

module _ ⦃B : Bolt⦄ where
  -- GetAgentMeta of server/data: a list of the one agent
  unfoldable pub get_agent_list : String → Exec Db (List AgentMeta)
  get_agent_list id = do meta ← get_agent_meta id; pure (meta ∷ [])

  one_agent : Result (List AgentMeta) → (AgentMeta → Exec Db JResponse) → Exec Db JResponse
  one_agent (value (meta ∷ [])) k = k meta
  one_agent _ k = pure (refuse 404 "agent not found")

  -- `err != nil || len(agents.Agents) != 1`
  unfoldable pub with_agent : String → (AgentMeta → Exec Db JResponse) → Exec Db JResponse
  unfolding get_agent_list one_agent
  with_agent id k = do found ← attempt (get_agent_list id); one_agent found k

  unfoldable pub save : AgentMeta → String → Reply → Exec Db JResponse
  unfolding saved_as
  save meta details reply = do
    saved ← attempt (set_agent_meta meta)
    pure (saved_as details reply saved)

  unfoldable pub get_agent : String → Exec Db JResponse
  unfolding get_agent_list listed_agents specified_agent
  get_agent id =
      if id == ""
      then (do agents ← attempt get_all_agent_meta; pure (listed_agents agents))
      else (do agents ← attempt (get_agent_list id); pure (specified_agent agents))

  unfoldable pub post_agent : String → HttpBody AgentMeta → Exec Db JResponse
  post_agent id body = with_param "agent ID required" id λ id. with_body body λ sent.
      with_agent id λ meta. save (updated sent meta) "error updating agent metadata" (generic "")

  unfoldable pub put_agent_reset_triggers : String → Exec Db JResponse
  put_agent_reset_triggers id = with_param "agent ID required" id λ id. with_agent id λ meta.
      save (record meta { triggers = new_agent_triggers }) "error updating agent metadata"
        (generic "")

  unfoldable pub get_agents_by_tag : (String → String) → String → Exec Db JResponse
  unfolding by_tag
  get_agents_by_tag lower tag =
      with_param "tag required" tag
        λ tag. do agents ← attempt get_all_agent_meta; pure (by_tag lower tag agents)

  unfoldable pub get_agent_tags : String → Exec Db JResponse
  get_agent_tags id =
      with_param "agent ID required" id
        λ id. with_agent id λ meta. pure (ok_with (agent_tags meta.tags))

  -- Stores the tags that the handler has worked out, and answers with them.
  unfoldable pub set_tags : AgentMeta → List String → Exec Db JResponse
  set_tags meta tags =
      save (record meta { tags = tags }) "error updating agent tags" (agent_tags tags)

  unfoldable pub set_users : AgentMeta → List String → Exec Db JResponse
  unfolding save
  set_users meta users =
      save (record meta { users = users }) "error updating agent users" (agent_users users)

  unfoldable pub post_agent_tags_add :
      (List String → List String) → String → HttpBody (List String) → Exec Db JResponse
  post_agent_tags_add visits id body = with_param "agent ID required" id λ id. with_agent id λ meta.
      with_body body λ tags. set_tags meta (visits (add_requested (add_keys [] meta.tags) tags))

  unfoldable pub post_agent_tags_remove :
      (String → String) → String → HttpBody (List String) → Exec Db JResponse
  post_agent_tags_remove lower id body = with_param "agent ID required" id λ id.
      with_agent id λ meta.
        with_body body λ tags. set_tags meta (without lower (map_names lower tags) meta.tags)

  -- The loop that checks the requested users; the first that is missing, or cannot be looked up, ends
  -- the handler.
  unfoldable pub check_users : List String → Exec Db (Option JResponse)
  check_users [] = pure none
  check_users (u ∷ us) = do
    found ← attempt (check_user_exists u)
    elim found [
      | error e ↦ pure (some (refuse 500 "error checking user existence"))
      | value known ↦ elim known [
        | true ↦ check_users us
        | false ↦ pure (some (refuse 404 ("user does not exist: " +++ u)))
      ]
    ]

  unfoldable pub add_users :
      (List String → List String) → AgentMeta → List String → Option JResponse → Exec Db JResponse
  add_users visits meta users (some refused) = pure refused
  add_users visits meta users none =
      set_users meta (visits (add_requested (add_keys [] meta.users) users))

  unfoldable pub post_agent_users_add :
      (List String → List String) → String → HttpBody (List String) → Exec Db JResponse
  post_agent_users_add visits id body = with_param "agent ID required" id λ id.
      with_agent id λ meta.
        with_body body λ users. do checked ← check_users users; add_users visits meta users checked

  unfoldable pub post_agent_users_remove : String → HttpBody (List String) → Exec Db JResponse
  post_agent_users_remove id body = with_param "agent ID required" id λ id.
      with_agent id
        λ meta. with_body body λ users. set_users meta (without (λ u. u) users meta.users)

  deleted_as : Result (Unit {0}) → JResponse
  deleted_as (value u) = ok_with (generic "deleted")
  deleted_as (error e) =
      if is_not_found (root_cause e) then refuse 404 "agent not found" else record {
        http_code = 404;
        json_data = failure "error" (caused "error deleting agent: " e);
      }

  unfoldable pub delete_agent : String → Exec Db JResponse
  unfolding deleted_as
  delete_agent id =
      with_param "agent ID required" id
        λ id. do gone ← attempt (agent_delete id); pure (deleted_as gone)
