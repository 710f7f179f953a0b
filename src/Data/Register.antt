-- ===== src/Data/Register.antt =====
-- server/data/register.go: a new agent presents the registration token.
pub mod Enrol
pub mod Ends
use unify_em.Base.{
  ℕ, zero, suc, String, ◌≡◌, Bool, true, false, Option, none, some, List, [], ◌∷◌, if◌then◌else◌,
  ◌==◌, Exec, ◌>>=◌, ◌>>◌, pure, raise, lift, wrapping, fault, empty_reg_token, wrong_reg_token,
  is_set,
}
use unify_em.Schema.{
  AgentMeta, AgentRegisterRequest, new_agent_meta, role_agent, token_purpose_access,
  token_purpose_refresh,
}
use unify_em.Bolt.{Bolt}
use unify_em.Db.Bucket.{Db, agent_meta_bucket, key_exists}
use unify_em.Db.Agents.{set_agent_meta}
use unify_em.Data.Config.{ServerConfig}
use unify_em.Data.Token.{Jwt, create_token}

pub record RegistrationData : Type 0 where
  pub agent_id : String
  pub access_token : String
  pub refresh_token : String
  pub server_public_sig : String
  pub server_public_enc : String

-- The metadata of a newly registered agent.
abbrev pub registered : ℕ → String → String → AgentRegisterRequest → AgentMeta
registered now id ip r = record (new_agent_meta now id) {
  active = true;
  first_seen = now;
  last_seen = now;
  last_ip = ip;
  version = r.version;
  build = r.build;
  client_public_sig = r.client_public_sig;
  client_public_enc = r.client_public_enc;
  friendly_name = r.friendly_name;
}

module _ ⦃B : Bolt⦄ where
  -- generateAgentID draws "A-" and a UUID until the key is not there. The draws come from a list;
  -- where it ends the call has not returned.
  unfoldable pub generate_agent_id : List String → Exec Db (Option String)
  generate_agent_id [] = pure none
  generate_agent_id (id ∷ draws) = do
    taken ← key_exists agent_meta_bucket id
    elim taken [ true ↦ generate_agent_id draws | false ↦ pure (some id) ]

module _ ⦃B : Bolt⦄ (J : Jwt) (conf : ServerConfig) (now : ℕ) where
  enrol :
      String → String → AgentRegisterRequest → String → String → Exec Db (Option RegistrationData)
  enrol fresh fresh' r ip id = do
    access ← lift (create_token J conf now fresh id role_agent token_purpose_access)
    refresh ← lift (create_token J conf now fresh' id role_agent token_purpose_refresh)
    wrapping (set_agent_meta (registered now id ip r))
    pure (
        some (record {
          agent_id = id;
          access_token = access;
          refresh_token = refresh;
          server_public_sig = conf.ec_public_sig;
          server_public_enc = conf.ec_public_enc;
        }))

  enrol_drawn :
      String
      → String
      → AgentRegisterRequest
      → String
      → Option String
      → Exec Db (Option RegistrationData)
  unfolding enrol
  enrol_drawn fresh fresh' r ip none = pure none
  enrol_drawn fresh fresh' r ip (some id) = enrol fresh fresh' r ip id

  unfoldable pub register :
      List String
      → String
      → String
      → AgentRegisterRequest
      → String
      → Exec Db (Option RegistrationData)
  unfolding enrol_drawn
  register draws fresh fresh' r ip =
      if conf.reg_token == ""
      then raise (fault empty_reg_token)
      else if r.token == conf.reg_token
      then (do id ← generate_agent_id draws; enrol_drawn fresh fresh' r ip id)
      else raise (fault wrong_reg_token)
