-- ===== src/Data/Token.antt =====
-- server/data/token.go and server/data/auth.go: the tokens of agents and users.
pub mod Validated
pub mod RoundTrip
pub mod Refresh
use unify_em.Base.{
  ℕ, ◌+◌, ◌-◌, ◌*◌, ◌/◌, ◌≤◌, ◌<◌, String, ◌≡◌, Bool, true, false, not, Option, none, some, ◌&&◌,
  ◌||◌, if◌then◌else◌, ◌==◌, nat_eq, ltb, leb, Exec, ◌>>=◌, ◌>>◌, pure, raise, lift, wrapping,
  Outcome, ok, err, panic, Error, fault, invalid_token, invalid_purpose, signing_failed,
  subject_disabled,
}
use unify_em.Schema.{AgentMeta, role_agent, token_purpose_access, token_purpose_refresh}
use unify_em.Bolt.{Bolt}
use unify_em.Db.Bucket.{Db}
use unify_em.Db.Agents.{get_agent_meta, set_agent_meta, agent_active}
use unify_em.Db.Auth.{PasswordHash, check_auth, user_active}
use unify_em.Data.Config.{ServerConfig}

-- CustomClaims, less the Issuer, which is a constant that nothing reads; a `NumericDate` holds
-- whole seconds.
pub record Claims : Type 0 where
  pub subject : String
  pub issued_at : ℕ
  pub not_before : ℕ
  pub expires_at : Option ℕ
  pub token_id : String
  pub role : ℕ
  pub purpose : String

abbrev pub second : ℕ
second = 1000000000

abbrev pub before_expiry : ℕ → Option ℕ → Bool
before_expiry now none = true
before_expiry now (some t) = ltb now (t * second)

-- What golang-jwt checks of the times when it parses a token.
abbrev pub in_force : ℕ → Claims → Bool
in_force now c = leb (c.not_before * second) now && before_expiry now c.expires_at

-- github.com/golang-jwt/jwt, with the server's HS256 key.
pub record Jwt : Type 0 where
  pub sign : Claims → Option String
  pub parse : ℕ → String → Option Claims
  -- a token of this key is accepted while it is in force
  pub parse-sign :
      (now : ℕ) (c : Claims) (t : String)
      → sign c ≡ some t
      → in_force now c ≡ true
      → parse now t ≡ some c
  -- what is accepted carries this key's signature, and is in force
  pub parse_signed : (now : ℕ) (t : String) (c : Claims) → parse now t ≡ some c → sign c ≡ some t
  pub parse-in_force :
      (now : ℕ) (t : String) (c : Claims) → parse now t ≡ some c → in_force now c ≡ true

-- lifeTime, in minutes; `none` is an unknown purpose
unfoldable pub life_time : ServerConfig → ℕ → String → Option ℕ
life_time conf role purpose =
    if purpose == token_purpose_access
    then some conf.access_token_life
    else if purpose == token_purpose_refresh
    then some (
        if nat_eq role role_agent
        then conf.refresh_token_life_agents
        else conf.refresh_token_life_users)
    else none

expiry : ℕ → ℕ → Option ℕ
expiry now life = if ltb 0 life then some ((now + life * (60 * second)) / second) else none

-- NotBefore is five minutes back.
unfoldable pub claims : ℕ → String → String → ℕ → String → ℕ → Claims
unfolding expiry
claims now fresh subject role purpose life = record {
  subject = subject;
  issued_at = now / second;
  not_before = (now - 300 * second) / second;
  expires_at = expiry now life;
  token_id = fresh;
  role = role;
  purpose = purpose;
}

signed : Option String → Outcome String
signed none = err (fault signing_failed)
signed (some t) = ok t

module _ (J : Jwt) (conf : ServerConfig) (now : ℕ) where
  sign_for : String → String → ℕ → String → Option ℕ → Outcome String
  unfolding signed
  sign_for fresh subject role purpose none = err (fault invalid_purpose)
  sign_for fresh subject role purpose (some life) =
      signed (J.sign (claims now fresh subject role purpose life))

  unfoldable pub create_token : String → String → ℕ → String → Outcome String
  unfolding sign_for
  create_token fresh subject role purpose =
      sign_for fresh subject role purpose (life_time conf role purpose)

module _ (J : Jwt) (now : ℕ) where
  check_purpose : String → Option Claims → Outcome (String × ℕ)
  check_purpose purpose none = err (fault invalid_token)
  check_purpose purpose (some c) =
      if c.purpose == purpose then ok (c.subject, c.role) else err (fault invalid_token)

  unfoldable pub validate_token : String → String → Outcome (String × ℕ)
  unfolding check_purpose
  validate_token token purpose = check_purpose purpose (J.parse now token)

-- A key is stored where there is none, and is never replaced.
abbrev pub pinned : String → String → String
pinned stored sent = if stored == "" then sent else stored

abbrev key_updated : String → String → Bool
key_updated stored sent = not (sent == "") && stored == ""

unfoldable pub pin_keys : String → String → AgentMeta → AgentMeta
pin_keys sig enc meta = record meta {
  client_public_sig = pinned meta.client_public_sig sig;
  client_public_enc = pinned meta.client_public_enc enc;
}

pub record TokenRefreshData : Type 0 where
  pub access_token : String
  pub server_public_sig : String
  pub server_public_enc : String

module _ ⦃B : Bolt⦄ (J : Jwt) (conf : ServerConfig) (now : ℕ) where
  subject_active : String → ℕ → Exec Db Bool
  subject_active subject role =
      if nat_eq role role_agent then agent_active subject else user_active subject

  update_keys : String → String → String → Exec Db (Unit {0})
  update_keys subject sig enc = do
    meta ← wrapping (get_agent_meta subject)
    if key_updated meta.client_public_sig sig || key_updated meta.client_public_enc enc
        then wrapping (set_agent_meta (pin_keys sig enc meta))
        else pure tt

  rekey : String → ℕ → String → String → Exec Db (Unit {0})
  unfolding update_keys
  rekey subject role sig enc =
      if nat_eq role role_agent && not (sig == "" && enc == "")
      then update_keys subject sig enc
      else pure tt

  issue : String → String → ℕ → Exec Db TokenRefreshData
  issue fresh subject role = do
    access ← lift (create_token J conf now fresh subject role token_purpose_access)
    pure (record {
      access_token = access;
      server_public_sig = conf.ec_public_sig;
      server_public_enc = conf.ec_public_enc;
    })

  -- What RefreshToken does once the token is validated, and once its subject is looked up.
  renew_active : String → String → String → String × ℕ → Bool → Exec Db TokenRefreshData
  unfolding rekey issue
  renew_active fresh sig enc who active =
      if active
      then (do rekey who.0 who.1 sig enc; issue fresh who.0 who.1)
      else raise (fault subject_disabled)

  renew : String → String → String → String × ℕ → Exec Db TokenRefreshData
  unfolding subject_active renew_active
  renew fresh sig enc who = do
    active ← subject_active who.0 who.1
    renew_active fresh sig enc who active

  unfoldable pub refresh_token : String → String → String → String → Exec Db TokenRefreshData
  unfolding renew
  refresh_token fresh token sig enc = do
    who ← lift (validate_token J now token token_purpose_refresh)
    renew fresh sig enc who

  -- LoginGetToken, whose Auth is CheckAuth with a delay on failure.
  unfoldable pub login_get_token :
      PasswordHash → String → String → String → String → Exec Db (String × String)
  login_get_token H fresh fresh' user pass = do
    role ← check_auth H now user pass
    access ← lift (create_token J conf now fresh user role token_purpose_access)
    refresh ← lift (create_token J conf now fresh' user role token_purpose_refresh)
    pure (access, refresh)
