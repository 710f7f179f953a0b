-- ===== src/Data/Register/Enrol.antt =====
-- Who is registered, and what is stored of a new agent.
use mathlib.Core.Path.{subst}
use unify_em.Base.{
  ℕ, String, ◌≡◌, refl, sym, ap, ◌∙◌, Option, none, some, some_inj, List, [], ◌∷◌, true, false, ok,
  err, ◌==◌, if◌then◌else◌, fault, Bool-cases, Option-cases, inl, inr, bucket_not_found, ◌⊎◌,
  wrapped, Exec,
}
use unify_em.Base.Inversion.{ok_inj, resume-eq-ok, resume-ok, wrapped-eq-ok}
use unify_em.Base.Ensures.{OnOk}
use unify_em.Schema.{
  AgentMeta, AgentRegisterRequest, role_agent, token_purpose_access, token_purpose_refresh,
}
use unify_em.Bolt.{Bolt}
use unify_em.Db.Bucket.{Db, Stored, decodes, agent_meta_bucket, key_exists, present, set_data}
use unify_em.Db.Bucket.Laws.{stored_at, found, stored_at-set_data}
use unify_em.Db.Keys.{validate_key}
use unify_em.Db.Agents.{set_agent_meta}
use unify_em.Data.Config.{ServerConfig}
use unify_em.Data.Token.{Jwt, create_token}
use unify_em.Data.Register.{
  RegistrationData, registered, generate_agent_id, enrol, enrol_drawn, register,
}

-- The metadata of a new agent, written out: active, without tags, users or triggers.
abbrev pub newly_active : ℕ → AgentRegisterRequest → String → String → AgentMeta
newly_active now r ip id = record {
  agent_id = id;
  active = true;
  friendly_name = r.friendly_name;
  first_seen = now;
  last_seen = now;
  last_ip = ip;
  version = r.version;
  build = r.build;
  triggers = record { lost = false; uninstall = false; wipe = false };
  status = none;
  tags = [];
  users = [];
  client_public_sig = r.client_public_sig;
  client_public_enc = r.client_public_enc;
  service_credentials = "";
  recovery_info = "";
}

module _ ⦃B : Bolt⦄ where
  abbrev IsFree : Db → Option String → Type 0
  IsFree d none = Unit
  IsFree d (some id) = stored_at agent_meta_bucket d id ≡ none

  looked :
      (o : Option (B.Bucket (Stored AgentMeta))) (id : String)
      → (present o id ≡ ok true)
        ⊎ ((present o id ≡ ok false) × (found o id ≡ none))
        ⊎ (present o id ≡ err (fault bucket_not_found))
  looked none id = inr (inr refl)
  looked (some b) id = elim (Option-cases (B.get b id)) [
    | inl g ↦ inr (inl (rw g refl, g))
    | inr (v, g) ↦ inl (rw g refl)
  ]

  pub generated :
      (draws : List String) (d : Db)
      → ((generate_agent_id draws d).1 ≡ d) × OnOk (IsFree d) (generate_agent_id draws d).0
  unfolding generate_agent_id key_exists
  generated [] d = (refl, tt)
  generated (id ∷ draws) d = elim (looked d.agent_meta id) [
    | inl taken ↦ rw taken (generated draws d)
    | inr (inl (absent, free)) ↦ rw absent (refl, free)
    | inr (inr missing) ↦ rw missing (refl, tt)
  ]

module _ ⦃B : Bolt⦄ (J : Jwt) (conf : ServerConfig) (now : ℕ) (fresh fresh' : String)
    (r : AgentRegisterRequest) (ip : String) where
  enrolled :
      (id : String) (d : Db) (reg : RegistrationData)
      → (enrol J conf now fresh fresh' r ip id d).0 ≡ ok (some reg)
      → (reg.agent_id ≡ id)
        × ((j : String)
            → stored_at agent_meta_bucket (enrol J conf now fresh fresh' r ip id d).1 j ≡ (
                if validate_key id == j
                then some (decodes (registered now id ip r))
                else stored_at agent_meta_bucket d j))
  unfolding enrol set_agent_meta
  enrolled id d reg h =
      let w = set_data agent_meta_bucket (validate_key id) (registered now id ip r) d in
      let (access, e, h1) =
        resume-eq-ok _ (create_token J conf now fresh id role_agent token_purpose_access, d) h in
      let (refresh, e', h2) =
        resume-eq-ok _ (create_token J conf now fresh' id role_agent token_purpose_refresh, d) h1 in
      let (u, e'', h3) = resume-eq-ok _ (wrapped (wrapped w.0), w.1) h2 in
      let done : w.0 ≡ ok u = wrapped-eq-ok _ (wrapped-eq-ok _ e'') in
      rw (e, e', done)
        (
          sym (ap (λ (x : RegistrationData). x.agent_id) (some_inj (ok_inj h3))),
          λ j.
              stored_at-set_data agent_meta_bucket (validate_key id) (registered now id ip r) d j
              ∙ rw done refl,
        )

  abbrev Enrolled : Db → RegistrationData → Db → Type 0
  Enrolled d reg d' =
      (j : String)
      → stored_at agent_meta_bucket d' j ≡ (
          if validate_key reg.agent_id == j
          then some (decodes (newly_active now r ip reg.agent_id))
          else stored_at agent_meta_bucket d j)

  drawn :
      (o : Option String) (d : Db) (reg : RegistrationData)
      → (enrol_drawn J conf now fresh fresh' r ip o d).0 ≡ ok (some reg)
      → (o ≡ some reg.agent_id) × Enrolled d reg (enrol_drawn J conf now fresh fresh' r ip o d).1
  unfolding enrol_drawn
  drawn none d reg h = cc (ok_inj h)
  drawn (some id) d reg h =
      let (same, at_key) = enrolled id d reg h in (ap some (sym same), rw same at_key)

  -- A registration that succeeds presented the configured token, which is not empty. The new agent's
  -- ID was not a key of the database, and its metadata is stored under its validated ID: active, seen
  -- first and last now from the caller's address, with the name, version and two keys that it sent and
  -- with no trigger, tag, user or secret. Every other key is as it was.
  pub register_sound :
      (draws : List String) (d : Db) (reg : RegistrationData)
      → (register J conf now draws fresh fresh' r ip d).0 ≡ ok (some reg)
      → (conf.reg_token == "" ≡ false)
        × (r.token == conf.reg_token ≡ true)
        × (stored_at agent_meta_bucket d reg.agent_id ≡ none)
        × ((j : String)
            → stored_at agent_meta_bucket (register J conf now draws fresh fresh' r ip d).1 j ≡ (
                if validate_key reg.agent_id == j
                then some (decodes (newly_active now r ip reg.agent_id))
                else stored_at agent_meta_bucket d j))
  unfolding register
  register_sound draws d reg h = elim (Bool-cases (conf.reg_token == "")) [
    | inl e ↦ cc (let g : err _ ≡ ok (some reg) = rw e at h in g)
    | inr e ↦ elim (Bool-cases (r.token == conf.reg_token)) [
      | inr f ↦ cc (let g : err _ ≡ ok (some reg) = rw (e, f) at h in g)
      | inl f ↦
          let p = generate_agent_id draws d in
          let next : Option String → Exec Db (Option RegistrationData) =
            λ id. enrol_drawn J conf now fresh fresh' r ip id in
          let (o, eo, h1) = resume-eq-ok next p (rw (e, f) at h) in
          let (state, free) = generated draws d in
          let (same, at_key) = drawn o p.1 reg h1 in
          rw (e, f, resume-ok next p eo)
            (
              refl,
              refl,
              subst (IsFree d) same (subst (OnOk (IsFree d)) eo free),
              subst (λ s. Enrolled s reg (next o p.1).1) state at_key,
            )
    ]
  ]
