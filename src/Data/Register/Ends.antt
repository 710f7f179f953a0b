-- ===== src/Data/Register/Ends.antt =====
-- How a registration ends, and that the search for a free ID ends.
use unify_em.Base.{
  ℕ, String, ◌≡◌, refl, Option, none, some, List, [], ◌∷◌, true, false, ok, ◌==◌, Bool-cases,
  Option-cases, inl, inr, ◌⊎◌, contains, eq_iff, Outcome,
}
use unify_em.Schema.{AgentMeta, AgentRegisterRequest}
use unify_em.Bolt.{Bolt}
use unify_em.Db.Bucket.{Db, Stored, agent_meta_bucket, key_exists, present}
use unify_em.Db.Bucket.Laws.{stored_at}
use unify_em.Data.Config.{ServerConfig}
use unify_em.Data.Token.{Jwt}
use unify_em.Data.Register.{RegistrationData, generate_agent_id}

module _ ⦃B : Bolt⦄ (J : Jwt) (conf : ServerConfig) (now : ℕ) (fresh fresh' : String)
    (r : AgentRegisterRequest) (ip : String) where
  -- No agent's metadata is changed.
  abbrev SameAgents : Db → Db → Type 0
  SameAgents d d' =
      (j : String) → stored_at agent_meta_bucket d' j ≡ stored_at agent_meta_bucket d j

  -- A call has registered an agent, or left every agent's metadata as it was.
  abbrev Ends : Db → Outcome (Option RegistrationData) × Db → Type 0
  Ends d p = ((reg : RegistrationData) × (p.0 ≡ ok (some reg))) ⊎ SameAgents d p.1

module _ ⦃B : Bolt⦄ where
  -- generateAgentID ends: where the bucket of agents is there and some draw is no key of it, a free ID
  -- is returned.
  pub generate_agent_id_ends :
      (draws : List String) (id : String) (d : Db) (b : B.Bucket (Stored AgentMeta))
      → d.agent_meta ≡ some b
      → contains id draws ≡ true
      → B.get b id ≡ none
      → (chosen : String) × ((generate_agent_id draws d).0 ≡ ok (some chosen))
        × (stored_at agent_meta_bucket d chosen ≡ none)
  unfolding generate_agent_id key_exists
  generate_agent_id_ends [] id d b e h free = cc
  generate_agent_id_ends (x ∷ draws) id d b e h free = elim (Option-cases (B.get b x)) [
    | inl g ↦
        let absent : present d.agent_meta x ≡ ok false = rw (e, g) refl in
        (x, rw absent refl, rw (e, g) refl)
    | inr (v, g) ↦
        let taken : present d.agent_meta x ≡ ok true = rw (e, g) refl in
        let (chosen, found_it, is_free) =
          generate_agent_id_ends draws id d b e (later (Bool-cases (x == id)) v g) free in
        (chosen, rw taken found_it, is_free)
  ]
    where
      later :
          (x == id ≡ true) ⊎ (x == id ≡ false)
          → (v : Stored AgentMeta) → B.get b x ≡ some v
          → contains id draws ≡ true
      later (inl same) v g = cc (g, free, (eq_iff x id).0 same)
      later (inr other) v g = rw other at h
