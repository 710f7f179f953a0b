-- ===== src/Api/Agents/Edits.antt =====
-- What the handlers of agent.go that edit an agent's metadata do on every branch.
use unify_em.Base.{
  ℕ, String, ◌≡◌, ◌≢◌, refl, ◌∙◌, Option, none, some, [], ◌∷◌, ◌⊎◌, inl, inr, if◌then◌else◌, ◌==◌,
  Outcome, ok, Exec, pure, attempt, wrapping, wrapped, resume, arith, Bool-cases,
}
use unify_em.Schema.{AgentMeta}
use unify_em.Bolt.{Bolt}
use unify_em.Db.Bucket.{
  Db, Stored, decodes, garbage, agent_meta_bucket, get_data, set_data, fetched, decoded, committed,
  or_empty,
}
use unify_em.Db.Bucket.Laws.{stored_at, found, found-or_empty}
use unify_em.Db.Keys.{validate_key}
use unify_em.Db.Agents.{get_agent_meta, set_agent_meta}
use unify_em.Api.Http.{
  HttpBody, unreadable, not_json, json, with_param, with_body, Reply, JResponse, ok_with, refuse,
}
use unify_em.Api.Agents.{get_agent_list, one_agent, with_agent, save, saved_as}

module _ ⦃B : Bolt⦄ where
  -- The reply, the metadata that was read under the agent's ID, and the metadata that replaced it.
  pub record Edited (Allowed : AgentMeta → AgentMeta → Type 0) (id : String) (d : Db)
      (p : Outcome JResponse × Db) : Type 0 where
    pub reply : Reply
    pub old : AgentMeta
    pub new : AgentMeta
    pub returned : p.0 ≡ ok (ok_with reply)
    pub was : stored_at agent_meta_bucket d (validate_key id) ≡ some (decodes old)
    pub allowed : Allowed old new
    pub is_stored :
        (j : String)
        → stored_at agent_meta_bucket p.1 j ≡ (
            if validate_key old.agent_id == j
            then some (decodes new)
            else stored_at agent_meta_bucket d j)
    pub rest : p.1 ≡ record d { agent_meta = p.1.agent_meta }

  -- Another reply than 200, from a handler that left the database as it was.
  pub record Refused (d : Db) (p : Outcome JResponse × Db) : Type 0 where
    pub response : JResponse
    pub returned : p ≡ (ok response, d)
    pub not_ok : response.http_code ≢ 200

  abbrev pub Ends : (AgentMeta → AgentMeta → Type 0) → String → Db → Outcome JResponse × Db → Type 0
  Ends Allowed id d p = Refused d p ⊎ Edited Allowed id d p

  -- As a record, so that the code is found from the goal.
  pub record Handles (Allowed : AgentMeta → AgentMeta → Type 0) (id : String) (d : Db)
      (m : Exec Db JResponse) : Type 0 where
    pub at : Ends Allowed id d (m d)

  pub refuse-Refused :
      (d : Db) (code : ℕ) (details : String) → code ≢ 200 → Refused d (ok (refuse code details), d)
  refuse-Refused d code details h = record {
    response = refuse code details;
    returned = refl;
    not_ok = h;
  }

  module _ (Allowed : AgentMeta → AgentMeta → Type 0) (id details : String) (reply : Reply)
      (old new : AgentMeta) (d : Db) where
    saving : Option (B.Bucket (Stored AgentMeta)) → Outcome JResponse × Db
    saving none = (ok (refuse 500 details), d)
    saving (some b) = (ok (ok_with reply), record d { agent_meta = some b })

    by_put :
        (o : Option (B.Bucket (Stored AgentMeta)))
        → resume
            (λ saved. pure (saved_as details reply saved))
            (attempt (wrapping (λ _. committed agent_meta_bucket d o)) d)
          ≡ saving o
    unfolding saved_as saving
    by_put none = refl
    by_put (some b) = refl

    save-saving :
        save new details reply d
        ≡ saving (B.put (or_empty d.agent_meta) (validate_key new.agent_id) (decodes new))
    unfolding save set_agent_meta set_data
    save-saving = by_put (B.put (or_empty d.agent_meta) (validate_key new.agent_id) (decodes new))

    saving-Ends :
        (o : Option (B.Bucket (Stored AgentMeta)))
        → B.put (or_empty d.agent_meta) (validate_key new.agent_id) (decodes new) ≡ o
        → stored_at agent_meta_bucket d (validate_key id) ≡ some (decodes old)
        → Allowed old new
        → new.agent_id ≡ old.agent_id
        → Ends Allowed id d (saving o)
    unfolding saving
    saving-Ends none e was can same = inl (refuse-Refused d 500 details (omega arith))
    saving-Ends (some b) e was can same = inr (record {
      reply = reply;
      old = old;
      new = new;
      returned = refl;
      was = was;
      allowed = can;
      is_stored = λ j.
          B.get-put _ _ (validate_key new.agent_id) (decodes new) b e j
          ∙ rw (same, found-or_empty d.agent_meta j) refl;
      rest = refl;
    })

    pub save-Ends :
        stored_at agent_meta_bucket d (validate_key id) ≡ some (decodes old)
        → Allowed old new
        → new.agent_id ≡ old.agent_id
        → Handles Allowed id d (save new details reply)
    save-Ends was can same = record { at = rw save-saving (saving-Ends _ refl was can same) }

  abbrev FoundAgent : String → Db → (AgentMeta → Exec Db JResponse) → Type 0
  FoundAgent id d k =
      ((meta : AgentMeta) × (stored_at agent_meta_bucket d (validate_key id) ≡ some (decodes meta))
        × (with_agent id k d ≡ k meta d))
      ⊎ (with_agent id k d ≡ (ok (refuse 404 "agent not found"), d))

  with_found :
      (k : AgentMeta → Exec Db JResponse) (d : Db) (o : Option (Stored AgentMeta))
      → ((meta : AgentMeta) × (o ≡ some (decodes meta))
          × (resume
                (λ found. one_agent found k)
                (attempt (λ s. resume (λ meta. pure (meta ∷ [])) (wrapped (decoded o), s)) d)
              ≡ k meta d))
        ⊎ (resume
              (λ found. one_agent found k)
              (attempt (λ s. resume (λ meta. pure (meta ∷ [])) (wrapped (decoded o), s)) d)
            ≡ (ok (refuse 404 "agent not found"), d))
  unfolding one_agent
  with_found k d none = inr refl
  with_found k d (some garbage) = inr refl
  with_found k d (some (decodes meta)) = inl (meta, refl, refl)

  with_bucket :
      (id : String) (k : AgentMeta → Exec Db JResponse) (d : Db)
      (o : Option (B.Bucket (Stored AgentMeta)))
      → ((meta : AgentMeta) × (found o (validate_key id) ≡ some (decodes meta))
          × (resume
                (λ found. one_agent found k)
                (attempt
                  (λ s.
                    resume (λ meta. pure (meta ∷ [])) (wrapped (fetched o (validate_key id)), s))
                  d)
              ≡ k meta d))
        ⊎ (resume
              (λ found. one_agent found k)
              (attempt
                (λ s. resume (λ meta. pure (meta ∷ [])) (wrapped (fetched o (validate_key id)), s))
                d)
            ≡ (ok (refuse 404 "agent not found"), d))
  unfolding one_agent
  with_bucket id k d none = inr refl
  with_bucket id k d (some b) = with_found k d (B.get b (validate_key id))

  found_agent : (id : String) (d : Db) (k : AgentMeta → Exec Db JResponse) → FoundAgent id d k
  unfolding with_agent get_agent_list get_agent_meta get_data
  found_agent id d k = with_bucket id k d d.agent_meta

  module _ (Allowed : AgentMeta → AgentMeta → Type 0) (id : String) (d : Db) where
    pub param-Ends :
        (missing : String) (k : String → Exec Db JResponse)
        → Handles Allowed id d (k id)
        → Handles Allowed id d (with_param missing id k)
    unfolding with_param
    param-Ends missing k h = elim (Bool-cases (id == "")) [
      | inl empty ↦ record { at = rw empty (inl (refuse-Refused d 400 missing (omega arith))) }
      | inr given ↦ record { at = rw given h.at }
    ]

    pub body-Ends :
        {T : Type 0} (body : HttpBody T) (k : T → Exec Db JResponse)
        → ((t : T) → body ≡ json t → Handles Allowed id d (k t))
        → Handles Allowed id d (with_body body k)
    unfolding with_body
    body-Ends unreadable k h = record {
      at = inl (refuse-Refused d 400 "error reading body" (omega arith));
    }
    body-Ends not_json k h = record {
      at = inl (refuse-Refused d 400 "error unmarshalling JSON" (omega arith));
    }
    body-Ends (json t) k h = record { at = (h t refl).at }

    pub agent-Ends :
        (k : AgentMeta → Exec Db JResponse)
        → ((meta : AgentMeta)
            → stored_at agent_meta_bucket d (validate_key id) ≡ some (decodes meta)
            → Handles Allowed id d (k meta))
        → Handles Allowed id d (with_agent id k)
    agent-Ends k h = elim (found_agent id d k) [
      | inl (meta, was, same) ↦ record { at = rw same (h meta was).at }
      | inr missing ↦ record {
        at = rw missing (inl (refuse-Refused d 404 "agent not found" (omega arith)));
      }
    ]
