-- ===== src/Examples/Tokens.antt =====
-- Tokens and registrations.
use mathlib.Core.Path.{subst₂}
use unify_em.Base.{
  ◌+◌, String, ◌≡◌, refl, true, false, none, some, [], ◌∷◌, ok, ◌==◌, if◌then◌else◌, nat_eq, inl,
  inr, arith, Bool-cases, eq_iff,
}
use unify_em.Schema.{
  AgentRegisterRequest, AgentMeta, new_agent_meta, token_purpose_access, token_purpose_refresh,
  role_agent,
}
use unify_em.Bolt.Listed.{listed}
use unify_em.Db.Bucket.{Db, decodes, agent_meta_bucket, set_data, get_data, key_exists}
use unify_em.Db.Bucket.Laws.{stored_at}
use unify_em.Db.Bucket.Every.{Every}
use unify_em.Db.Keys.{validate_key}
use unify_em.Db.Agents.{agent_active, set_agent_meta}
use unify_em.Db.Auth.{user_active}
use unify_em.Data.Token.{
  Claims, create_token, validate_token, refresh_token, TokenRefreshData, life_time, claims,
}
use unify_em.Data.Token.RoundTrip.{validate-create_token}
use unify_em.Data.Token.Refresh.{KeyStands, refresh_sound, refresh_keeps_key}
use unify_em.Data.Register.{RegistrationData, register, generate_agent_id}
use unify_em.Data.Register.Enrol.{newly_active, register_sound}
use unify_em.Examples.Fixtures.{conf, file, decodes_inj}
use unify_em.Examples.KnownTokens.{jwt, start}

validate-create_token_example :
    validate_token jwt (start + 60000000000) "a" token_purpose_access ≡ ok ("A-1", 2)
unfolding create_token life_time claims
validate-create_token_example =
    validate-create_token jwt conf start "T-1" "A-1" 2 token_purpose_access "a"
      (start + 60000000000) 15 token_purpose_access refl refl (omega arith, inr (omega arith))

abbrev agent : AgentMeta
agent = record (new_agent_meta 0 "A-1") { client_public_sig = "agent sig" }

abbrev with_agent : Db
with_agent = record file {
  agent_meta = some (record { items = ("A-1", decodes agent) ∷ []; distinct = (refl, tt) });
}

abbrev given : TokenRefreshData
given = record {
  access_token = "a";
  server_public_sig = "server sig";
  server_public_enc = "server enc";
}

refresh_sound_example :
    (c : Claims) × (jwt.parse start "r" ≡ some c)
    × (c.purpose == token_purpose_refresh ≡ true)
    × (((if nat_eq c.role role_agent then agent_active c.subject else user_active c.subject)
          with_agent).0
        ≡ ok true)
    × (create_token jwt conf start "T-1" c.subject c.role token_purpose_access ≡ ok "a")
unfolding refresh_token create_token life_time claims validate_token validate_key agent_active
    get_data
refresh_sound_example = refresh_sound jwt conf start "T-1" "r" "" "" with_agent given refl

id_key : validate_key "A-1" ≡ "A-1"
unfolding validate_key
id_key = refl

only_agent :
    (key : String) (m : AgentMeta)
    → stored_at agent_meta_bucket with_agent key ≡ some (decodes m)
    → KeyStands "A-1" "agent sig" key m
only_agent key m e = elim (Bool-cases ("A-1" == key)) [
  | inl here ↦
      subst₂ (KeyStands "A-1" "agent sig") ((eq_iff "A-1" key).0 here) (decodes_inj (rw here at e))
        (id_key, λ same. refl)
  | inr other ↦ cc (let g : none ≡ some (decodes m) = rw other at e in g)
]

refresh_keeps_key_example :
    Every agent_meta_bucket
      (KeyStands "A-1" "agent sig")
      (refresh_token jwt conf start "T-1" "r" "other sig" "" with_agent).1
refresh_keeps_key_example =
    refresh_keeps_key jwt conf start "A-1" "agent sig" refl "T-1" "r" "other sig" "" with_agent
      only_agent

abbrev newcomer : AgentRegisterRequest
newcomer = record {
  token = "secret";
  version = "1";
  build = 1;
  client_public_sig = "sig";
  client_public_enc = "enc";
  friendly_name = "laptop";
}

abbrev empty_meta : Db
empty_meta = record file { agent_meta = some (record { items = []; distinct = tt }) }

abbrev reg : RegistrationData
reg = record {
  agent_id = "A-1";
  access_token = "a";
  refresh_token = "r";
  server_public_sig = "server sig";
  server_public_enc = "server enc";
}

register_sound_example :
    (conf.reg_token == "" ≡ false)
    × (newcomer.token == conf.reg_token ≡ true)
    × (stored_at agent_meta_bucket empty_meta "A-1" ≡ none)
    × ((j : String)
        → stored_at agent_meta_bucket
            (register jwt conf start ("A-1" ∷ []) "T-1" "T-2" newcomer "10.0.0.1" empty_meta).1
            j
          ≡ (if validate_key "A-1" == j
              then some (decodes (newly_active start newcomer "10.0.0.1" "A-1"))
              else stored_at agent_meta_bucket empty_meta j))
unfolding register generate_agent_id create_token life_time claims key_exists set_agent_meta
    set_data validate_key
register_sound_example =
    register_sound jwt conf start "T-1" "T-2" newcomer "10.0.0.1" ("A-1" ∷ []) empty_meta reg refl

abbrev stranger : AgentRegisterRequest
stranger = record newcomer { token = "guess" }
