-- ===== src/Api/Agents/Outcomes.antt =====
-- Every handler of agent.go that edits an agent: its reply, and what the database then holds.
use unify_em.Base.{
  String, ◌≡◌, ◌≢◌, refl, ◌∙◌, Bool, true, false, not, ◌&&◌, ◌||◌, Option, none, some, List, [],
  ◌∷◌, ◌⊎◌, inl, inr, if◌then◌else◌, is_set, contains, ok, err, Error, Exec, ◌>>=◌, settle, resume,
  arith, All,
}
use unify_em.Schema.{AgentMeta, AgentTriggers, UserMeta, new_agent_triggers}
use unify_em.Bolt.{Bolt}
use unify_em.Db.Bucket.{
  Db, Stored, decodes, garbage, agent_meta_bucket, user_meta_bucket, get_data, fetched, decoded,
}
use unify_em.Db.Bucket.Laws.{stored_at, found}
use unify_em.Db.Keys.{validate_key}
use unify_em.Data.Users.{check_user_exists, get_user_by_id, exists_after}
use unify_em.Api.Http.{HttpBody, json, JResponse}
use unify_em.Api.Agents.{
  updated, map_names, put_agent_reset_triggers, post_agent, post_agent_tags_add,
  post_agent_tags_remove, post_agent_users_add, post_agent_users_remove, set_tags, set_users,
  check_users, add_users,
}
use unify_em.Api.Agents.Tags.{contains-added, contains-without}
use unify_em.Api.Agents.Edits.{Handles, Ends, save-Ends, param-Ends, body-Ends, agent-Ends}

pub data Edit : Type 0 where
  post : HttpBody AgentMeta → Edit
  reset : Edit
  tags_add tags_remove users_add users_remove : HttpBody (List String) → Edit

abbrev pub is_decoded : {V : Type 0} → Option (Stored V) → Bool
is_decoded (some (decodes v)) = true
is_decoded _ = false

-- A trigger stays set, and becomes set where it is asked for.
abbrev pub BothSet : AgentTriggers → AgentTriggers → AgentTriggers → Type 0
BothSet old sent new =
    (new.lost ≡ (old.lost || sent.lost))
    × (new.wipe ≡ (old.wipe || sent.wipe))
    × (new.uninstall ≡ (old.uninstall || sent.uninstall))

or_comm : (a b : Bool) → (a || b) ≡ (b || a)
or_comm true true = refl
or_comm true false = refl
or_comm false true = refl
or_comm false false = refl

updated-BothSet :
    (sent meta : AgentMeta) → BothSet meta.triggers sent.triggers (updated sent meta).triggers
updated-BothSet sent meta = (
  or_comm sent.triggers.lost meta.triggers.lost,
  or_comm sent.triggers.wipe meta.triggers.wipe,
  or_comm sent.triggers.uninstall meta.triggers.uninstall,
)

module _ ⦃B : Bolt⦄ (lower : String → String) (visits : List String → List String) where
  -- The handlers by their routes.
  abbrev pub edit : String → Edit → Exec Db JResponse
  edit id (post body) = post_agent id body
  edit id reset = put_agent_reset_triggers id
  edit id (tags_add body) = post_agent_tags_add visits id body
  edit id (tags_remove body) = post_agent_tags_remove lower id body
  edit id (users_add body) = post_agent_users_add visits id body
  edit id (users_remove body) = post_agent_users_remove id body

  abbrev pub HasUser : Db → String → Type 0
  HasUser d u = is_decoded (stored_at user_meta_bucket d u) ≡ true

  -- What an edit may turn an agent's metadata into.
  abbrev pub Allows : Db → Edit → AgentMeta → AgentMeta → Type 0
  Allows d (post body) old new =
      (sent : AgentMeta) × (body ≡ json sent)
      × (new ≡ record old { friendly_name = new.friendly_name; triggers = new.triggers })
      × (new.friendly_name
          ≡ (if is_set sent.friendly_name then sent.friendly_name else old.friendly_name))
      × BothSet old.triggers sent.triggers new.triggers
  Allows d reset old new = new ≡ record old { triggers = new_agent_triggers }
  Allows d (tags_add body) old new =
      (ts : List String) × (body ≡ json ts)
      × (new ≡ record old { tags = new.tags })
      × ((s : String) → contains s new.tags ≡ (contains s old.tags || (is_set s && contains s ts)))
  Allows d (tags_remove body) old new =
      (ts : List String) × (body ≡ json ts)
      × (new ≡ record old { tags = new.tags })
      × ((s : String)
          → contains s new.tags
            ≡ (contains s old.tags && not (contains (lower s) (map_names lower ts))))
  Allows d (users_add body) old new =
      (us : List String) × (body ≡ json us)
      × (new ≡ record old { users = new.users })
      × ((s : String)
          → contains s new.users ≡ (contains s old.users || (is_set s && contains s us)))
      × All (HasUser d) us
  Allows d (users_remove body) old new =
      (us : List String) × (body ≡ json us)
      × (new ≡ record old { users = new.users })
      × ((s : String) → contains s new.users ≡ (contains s old.users && not (contains s us)))

  user_found :
      (d : Db) (o : Option (Stored UserMeta))
      → ((is_decoded o ≡ true) × (resume exists_after (settle (decoded o), d) ≡ (ok true, d)))
        ⊎ (resume exists_after (settle (decoded o), d) ≡ (ok false, d))
        ⊎ ((e : Error) × (resume exists_after (settle (decoded o), d) ≡ (err e, d)))
  unfolding exists_after
  user_found d none = inr (inl refl)
  user_found d (some garbage) = inr (inr (_, refl))
  user_found d (some (decodes m)) = inl (refl, refl)

  user_bucket :
      (d : Db) (u : String) (o : Option (B.Bucket (Stored UserMeta)))
      → ((is_decoded (found o u) ≡ true)
          × (resume exists_after (settle (fetched o u), d) ≡ (ok true, d)))
        ⊎ (resume exists_after (settle (fetched o u), d) ≡ (ok false, d))
        ⊎ ((e : Error) × (resume exists_after (settle (fetched o u), d) ≡ (err e, d)))
  unfolding exists_after
  user_bucket d u none = inr (inr (_, refl))
  user_bucket d u (some b) = user_found d (B.get b u)

  user_checked :
      (u : String) (d : Db)
      → (HasUser d u × (check_user_exists u d ≡ (ok true, d)))
        ⊎ (check_user_exists u d ≡ (ok false, d))
        ⊎ ((e : Error) × (check_user_exists u d ≡ (err e, d)))
  unfolding check_user_exists get_user_by_id get_data
  user_checked u d = user_bucket d u d.user_meta

  users_checked :
      (us : List String) (d : Db)
      → ((check_users us d ≡ (ok none, d)) × All (HasUser d) us)
        ⊎ ((r : JResponse) × (check_users us d ≡ (ok (some r), d)) × (r.http_code ≢ 200))
  unfolding check_users
  users_checked [] d = inl (refl, tt)
  users_checked (u ∷ us) d = elim (user_checked u d) [
    | inl (there, e) ↦ rw e (elim (users_checked us d) [
      | inl (all, h) ↦ rw all (inl (refl, (there, h)))
      | inr (r, stops, code) ↦ rw stops (inr (r, refl, code))
    ])
    | inr (inl e) ↦ rw e (inr (_, refl, omega arith))
    | inr (inr (x, e)) ↦ rw e (inr (_, refl, omega arith))
  ]

  users_add-Ends :
      ((s : String) (xs : List String) → contains s (visits xs) ≡ contains s xs)
      → (id : String) (body : HttpBody (List String)) (us : List String) (meta : AgentMeta) (d : Db)
      → stored_at agent_meta_bucket d (validate_key id) ≡ some (decodes meta)
      → body ≡ json us
      → Handles
          (Allows d (users_add body))
          id
          d
          (check_users us >>= λ checked. add_users visits meta us checked)
  unfolding add_users set_users
  users_add-Ends keeps id body us meta d was same = elim (users_checked us d) [
    | inl (all, known) ↦ record {
      at =
          rw all
            (save-Ends _ id _ _ meta _ d was
              (us, same, refl, (λ s. keeps s _ ∙ contains-added s meta.users us), known) refl).at;
    }
    | inr (r, stops, code) ↦ record {
      at = rw stops (inl (record { response = r; returned = refl; not_ok = code }));
    }
  ]

  edit-Handles :
      ((s : String) (xs : List String) → contains s (visits xs) ≡ contains s xs)
      → (id : String) (e : Edit) (d : Db) → Handles (Allows d e) id d (edit id e)
  unfolding post_agent put_agent_reset_triggers post_agent_tags_add post_agent_tags_remove
      post_agent_users_add post_agent_users_remove set_tags set_users
  edit-Handles keeps id (post body) d = param-Ends _ id d _ _ (
      body-Ends _ id d body _ λ sent same. agent-Ends _ id d _ λ meta was.
        save-Ends _ id _ _ meta _ d was (sent, same, refl, refl, updated-BothSet sent meta) refl)
  edit-Handles keeps id reset d =
      param-Ends _ id d _ _
        (agent-Ends _ id d _ λ meta was. save-Ends _ id _ _ meta _ d was refl refl)
  edit-Handles keeps id (tags_add body) d = param-Ends _ id d _ _ (
      agent-Ends _ id d _ λ meta was. body-Ends _ id d body _ λ ts same.
        save-Ends _ id _ _ meta _ d was
          (ts, same, refl, λ s. keeps s _ ∙ contains-added s meta.tags ts) refl)
  edit-Handles keeps id (tags_remove body) d = param-Ends _ id d _ _ (
      agent-Ends _ id d _ λ meta was. body-Ends _ id d body _ λ ts same.
        save-Ends _ id _ _ meta _ d was
          (ts, same, refl, λ s. contains-without lower s (map_names lower ts) meta.tags) refl)
  edit-Handles keeps id (users_remove body) d = param-Ends _ id d _ _ (
      agent-Ends _ id d _ λ meta was. body-Ends _ id d body _ λ us same.
        save-Ends _ id _ _ meta _ d was
          (us, same, refl, λ s. contains-without (λ u. u) s us meta.users) refl)
  edit-Handles keeps id (users_add body) d = param-Ends _ id d _ _ (
      agent-Ends _ id d _ λ meta was.
        body-Ends _ id d body _ λ us same. users_add-Ends keeps id body us meta d was same)

  -- A handler of agent.go that edits an agent replies on every branch. With 200 it replaced the
  -- metadata that stood under the agent's ID by one that the edit allows: a set name and set triggers,
  -- reset triggers, the requested tags or users added to the old ones or taken from them, with every
  -- added user known; nothing else in the database changed. With any other reply nothing changed.
  -- Visiting a map is assumed to keep its keys.
  pub edit-Ends :
      ((s : String) (xs : List String) → contains s (visits xs) ≡ contains s xs)
      → (id : String) (e : Edit) (d : Db) → Ends (Allows d e) id d (edit id e d)
  edit-Ends keeps id e d = (edit-Handles keeps id e d).at
