-- ===== src/Data/Token/Refresh.antt =====
-- What a token refresh gives out, and what it may change.
use unify_em.Base.{
  ℕ, String, ◌≡◌, refl, sym, ap, ◌∙◌, some, Bool, true, false, not, ok, ◌==◌, ◌&&◌, ◌||◌,
  if◌then◌else◌, lift, nat_eq,
}
use unify_em.Base.Inversion.{ok_inj, resume-eq-ok}
use unify_em.Base.Ensures.{
  Ensures, Always, Always-ok, Ensures-pure, Ensures-bind, Ensures-raise, Ensures-if, Ensures-lift,
  Ensures-wrapping, Ensures-attempt,
}
use unify_em.Schema.{AgentMeta, token_purpose_access, token_purpose_refresh, role_agent}
use unify_em.Bolt.{Bolt}
use unify_em.Db.Bucket.{Db, AuthInfo, agent_meta_bucket, get_data}
use unify_em.Db.Bucket.Every.{Every, get_data-Every, set_data-Every}
use unify_em.Db.Keys.{validate_key}
use unify_em.Db.Agents.{get_agent_meta, set_agent_meta, agent_active}
use unify_em.Db.Auth.{user_active, get_auth}
use unify_em.Data.Config.{ServerConfig}
use unify_em.Data.Token.Validated.{validate_token_iff}
use unify_em.Data.Token.{
  Claims, Jwt, create_token, validate_token, TokenRefreshData, subject_active, update_keys, rekey,
  issue, renew_active, renew, refresh_token, pin_keys, pinned, key_updated,
}

module _ (J : Jwt) (conf : ServerConfig) (now : ℕ) where
  module _ ⦃B : Bolt⦄ (fresh token sig enc : String) where
    issued :
        (subject : String) (role : ℕ) (d : Db) (given : TokenRefreshData)
        → (issue J conf now fresh subject role d).0 ≡ ok given
        → create_token J conf now fresh subject role token_purpose_access ≡ ok given.access_token
    unfolding issue
    issued subject role d given h =
        let (access, e, h1) =
          resume-eq-ok _ (create_token J conf now fresh subject role token_purpose_access, d) h in
        e ∙ ap ok (ap (λ (x : TokenRefreshData). x.access_token) (ok_inj h1))

    renewed_active :
        (subject : String) (role : ℕ) (active : Bool) (d : Db) (given : TokenRefreshData)
        → (renew_active J conf now fresh sig enc (subject, role) active d).0 ≡ ok given
        → (active ≡ true)
          × (create_token J conf now fresh subject role token_purpose_access
              ≡ ok given.access_token)
    unfolding renew_active
    renewed_active subject role false d given h = cc
    renewed_active subject role true d given h =
        let p = rekey J conf now subject role sig enc d in
        let (u, e, h1) = resume-eq-ok (λ _. issue J conf now fresh subject role) p h in
        (refl, issued subject role p.1 given h1)

    renewed :
        (subject : String) (role : ℕ) (d : Db) (given : TokenRefreshData)
        → (renew J conf now fresh sig enc (subject, role) d).0 ≡ ok given
        → ((subject_active J conf now subject role d).0 ≡ ok true)
          × (create_token J conf now fresh subject role token_purpose_access
              ≡ ok given.access_token)
    unfolding renew
    renewed subject role d given h =
        let p = subject_active J conf now subject role d in
        let (active, e, h1) =
          resume-eq-ok (renew_active J conf now fresh sig enc (subject, role)) p h in
        let (same, access) = renewed_active subject role active p.1 given h1 in
        (e ∙ ap ok same, access)

    -- A refresh that succeeds was given a token of the refresh purpose, whose signature and times the
    -- parser accepted, for an agent or user that is active in the database; the new token is an access
    -- token of the same subject and role.
    pub refresh_sound :
        (d : Db) (given : TokenRefreshData)
        → (refresh_token J conf now fresh token sig enc d).0 ≡ ok given
        → (c : Claims) × (J.parse now token ≡ some c)
          × (c.purpose == token_purpose_refresh ≡ true)
          × (((if nat_eq c.role role_agent then agent_active c.subject else user_active c.subject)
                d).0
              ≡ ok true)
          × (create_token J conf now fresh c.subject c.role token_purpose_access
              ≡ ok given.access_token)
    unfolding refresh_token validate_token subject_active
    refresh_sound d given h =
        let (p, e, h1) =
          resume-eq-ok (renew J conf now fresh sig enc)
            (validate_token J now token token_purpose_refresh, d) h in
        let (c, parsed, right, same) =
          (validate_token_iff J now token_purpose_refresh token p).0 e in
        let (active, access) = renewed c.subject c.role d given (rw same at h1) in
        (c, parsed, right, active, access)

-- A record stands under the key of its own ID, and the one under k has this signature key.
abbrev pub KeyStands : String → String → String → AgentMeta → Type 0
KeyStands k key j m = (validate_key m.agent_id ≡ j) × (j ≡ k → m.client_public_sig ≡ key)

module _ ⦃B : Bolt⦄ (J : Jwt) (conf : ServerConfig) (now : ℕ) (k key : String)
    (is_key : key == "" ≡ false) where
  get-Keeps :
      (id : String)
      → Ensures Db AgentMeta
          (Every agent_meta_bucket (KeyStands k key))
          (KeyStands k key (validate_key id))
          (get_agent_meta id)
  unfolding get_agent_meta
  get-Keeps id =
      Ensures-wrapping _ (get_data-Every agent_meta_bucket (KeyStands k key) (validate_key id))

  pinned_lem : (stored sent : String) → stored ≡ key → pinned stored sent ≡ key
  pinned_lem stored sent e = rw (e, is_key) refl

  update-Keeps :
      (subject sig enc : String)
      → Ensures Db
          (Unit {0})
          (Every agent_meta_bucket (KeyStands k key))
          Always
          (update_keys J conf now subject sig enc)
  unfolding update_keys set_agent_meta pin_keys
  update-Keeps subject sig enc = Ensures-bind _ _ (Ensures-wrapping _ (get-Keeps subject)) λ meta q.
      Ensures-if (key_updated meta.client_public_sig sig || key_updated meta.client_public_enc enc)
        _ _
        (λ _. Ensures-wrapping _ (
          Ensures-wrapping _ (
            set_data-Every agent_meta_bucket (KeyStands k key) (validate_key meta.agent_id)
              (pin_keys sig enc meta)
              (refl, λ same. pinned_lem meta.client_public_sig sig (q.1 (sym q.0 ∙ same))))))
        (λ _. Ensures-pure tt tt)

  auth-Keeps :
      (id : String)
      → Ensures Db AuthInfo (Every agent_meta_bucket (KeyStands k key)) Always (get_auth id)
  unfolding get_auth get_data
  auth-Keeps id = record { at = λ d h. (h, Always-ok _) }

  active-Keeps :
      (subject : String) (role : ℕ)
      → Ensures Db Bool
          (Every agent_meta_bucket (KeyStands k key))
          Always
          (subject_active J conf now subject role)
  unfolding subject_active agent_active user_active
  active-Keeps subject role =
      Ensures-if (nat_eq role role_agent) _ _
        (λ _. Ensures-bind _ _ (Ensures-attempt _ (get-Keeps subject)) (λ r _. Ensures-pure _ tt))
        (λ _. Ensures-bind _ _ (Ensures-attempt _ (auth-Keeps subject)) (λ r _. Ensures-pure _ tt))

  issue-Keeps :
      (fresh subject : String) (role : ℕ)
      → Ensures Db TokenRefreshData
          (Every agent_meta_bucket (KeyStands k key))
          Always
          (issue J conf now fresh subject role)
  unfolding issue
  issue-Keeps fresh subject role =
      let made = create_token J conf now fresh subject role token_purpose_access in
      Ensures-bind {A = String} {Φ = Always} (lift made) _ (Ensures-lift made (Always-ok made))
        (λ access _. Ensures-pure _ tt)

  renew-Keeps :
      (fresh sig enc : String) (who : String × ℕ)
      → Ensures Db TokenRefreshData
          (Every agent_meta_bucket (KeyStands k key))
          Always
          (renew J conf now fresh sig enc who)
  unfolding renew renew_active rekey
  renew-Keeps fresh sig enc who = Ensures-bind _ _ (active-Keeps who.0 who.1) λ active _.
      Ensures-if active _ _
        (λ _.
          Ensures-bind _ _
            (Ensures-if (nat_eq who.1 role_agent && not (sig == "" && enc == "")) _ _
              (λ _. update-Keeps who.0 sig enc) (λ _. Ensures-pure tt tt))
            λ _ _. issue-Keeps fresh who.0 who.1)
        (λ _. Ensures-raise _)

  -- Let every agent's metadata stand under the key of its own ID. A signature key that is stored
  -- for an agent survives every refresh by any subject, whatever keys are sent along.
  pub refresh_keeps_key :
      (fresh token sig enc : String) (d : Db)
      → Every agent_meta_bucket (KeyStands k key) d
      → Every agent_meta_bucket (KeyStands k key) (refresh_token J conf now fresh token sig enc d).1
  unfolding refresh_token
  refresh_keeps_key fresh token sig enc d h =
      ((Ensures-bind (lift (validate_token J now token token_purpose_refresh))
          (renew J conf now fresh sig enc) (Ensures-lift _ (Always-ok _))
          (λ who _. renew-Keeps fresh sig enc who)).at
        d h).0
