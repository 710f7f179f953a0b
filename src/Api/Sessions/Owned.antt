-- ===== src/Api/Sessions/Owned.antt =====
-- Under whose ID an agent's messages are queued.
use mathlib.Core.List.{append-nil, append_assoc}
use unify_em.Base.{
  ℕ, String, ◌≡◌, refl, sym, ap, ◌∙◌, ◌||◌, Option, none, some, some_inj, List, [], ◌∷◌, ◌++◌, ◌==◌,
  ltb, length, All, Outcome, ok, err, panic, Exec, resume, attempt, Result, value, error,
  Bool-cases, inl, inr,
}
use unify_em.Bolt.{Bolt}
use unify_em.Db.Agents.{agent_exists}
use unify_em.Data.Config.{ServerConfig}
use unify_em.Data.Dispatch.{Files}
use unify_em.Queue.{Channel, add, add_all, fill}
use unify_em.Api.Http.{HttpBody, unreadable, not_json, json}
use unify_em.Api.Sessions.{
  AgentMessage, AgentSyncRequest, Serving, on_db, own_messages, data_sync, read_recovery_key,
  with_messages, sync_body, sync_known, post_sync,
}

add_all_lem :
    (xs : List AgentMessage) (c c' : Channel AgentMessage)
    → add_all xs c ≡ some c'
    → c'.items ≡ c.items ++ xs
unfolding add_all add
add_all_lem [] c c' h = ap (λ q. q.items) (sym (some_inj h)) ∙ sym (append-nil c.items)
add_all_lem (x ∷ xs) c c' h = elim (Bool-cases (ltb (length c.items) c.capacity)) [
  | inl room ↦
      add_all_lem xs (record c { items = c.items ++ x ∷ [] }) c' (rw (room, add_all, add) at h)
      ∙ append_assoc c.items (x ∷ []) xs
  | inr full ↦ cc (let g : none ≡ some c' = rw (full, add_all, add) at h in g)
]

own_messages-All :
    (id : String) (ms : List AgentMessage) → All (λ m. m.agent_id ≡ id) (own_messages id ms)
own_messages-All id [] = tt
own_messages-All id (m ∷ ms) = (refl, own_messages-All id ms)

module _ ⦃B : Bolt⦄ where
  -- The queue has grown by messages of this agent.
  pub record Grown (id : String) (old new : Channel AgentMessage) : Type 0 where
    pub added : List AgentMessage
    pub own : All (λ m. m.agent_id ≡ id) added
    pub items_are : new.items ≡ old.items ++ added

  same : (id : String) (old new : Channel AgentMessage) → new ≡ old → Grown id old new
  same id old new h = record {
    added = [];
    own = tt;
    items_are = ap (λ q. q.items) h ∙ sym (append-nil old.items);
  }

  filled :
      (id : String) (xs : List AgentMessage) (c : Channel AgentMessage)
      → All (λ m. m.agent_id ≡ id) xs
      → Grown id c (fill xs c)
  unfolding fill add
  filled id [] c own = same id c c refl
  filled id (x ∷ xs) c own = elim (Bool-cases (ltb (length c.items) c.capacity)) [
    | inl room ↦
        (let g : Grown id (record c { items = c.items ++ x ∷ [] })
              (fill xs (record c { items = c.items ++ x ∷ [] })) =
            filled id xs (record c { items = c.items ++ x ∷ [] }) own.1 in
          rw (room, fill, add)
            (record {
              added = x ∷ g.added;
              own = (own.0, g.own);
              items_are = g.items_are ∙ append_assoc c.items (x ∷ []) g.added;
            }))
    | inr full ↦ rw (full, fill, add) (same id c c refl)
  ]

  resume-queue :
      {A C : Type 0} (f : A → Exec Serving C) (p : Outcome A × Serving)
      → ((a : A) (s : Serving) → (f a s).1.queue ≡ s.queue)
      → (resume f p).1.queue ≡ p.1.queue
  resume-queue f (ok a, s) h = h a s
  resume-queue f (err e, s) h = refl
  resume-queue f (panic, s) h = refl

  module _ (files : Files) (conf : ServerConfig) (decrypt : String → String → Option String)
      (now : ℕ) (fresh ip id : String) where
    messages_queued :
        (r : AgentSyncRequest) (o : Option (Channel AgentMessage)) (s : Serving)
        → add_all (own_messages id r.messages) s.queue ≡ o
        → Grown id s.queue (with_messages files conf decrypt now fresh ip id r o s).1.queue
    unfolding with_messages read_recovery_key
    messages_queued r none s e =
        filled id (own_messages id r.messages) s.queue (own_messages-All id r.messages)
    messages_queued r (some q) s e = record {
      added = own_messages id r.messages;
      own = own_messages-All id r.messages;
      items_are = ap (λ c. c.items) kept ∙ add_all_lem (own_messages id r.messages) s.queue q e;
    }
      where
        kept : (with_messages files conf decrypt now fresh ip id r (some q) s).1.queue ≡ q
        kept = elim (Bool-cases (r.version == "" || ltb r.build 1)) [
          | inl bad ↦ rw (bad, with_messages) refl
          | inr good ↦
              rw (good, with_messages)
                (resume-queue _
                  (on_db (data_sync files conf decrypt now fresh ip id s.sets r)
                    (record s { queue = q }))
                  (λ reply t. refl))
        ]

    body_queued :
        (body : HttpBody AgentSyncRequest) (s : Serving)
        → Grown id s.queue (sync_body files conf decrypt now fresh ip id body s).1.queue
    unfolding sync_body
    body_queued unreadable s = same id s.queue s.queue refl
    body_queued not_json s = same id s.queue s.queue refl
    body_queued (json r) s = messages_queued r (add_all (own_messages id r.messages) s.queue) s refl

    known_queued :
        (body : HttpBody AgentSyncRequest) (p : Outcome (Result (Unit {0})) × Serving)
        → Grown id p.1.queue (resume (sync_known files conf decrypt now fresh ip id body) p).1.queue
    unfolding sync_known
    known_queued body (ok (value u), s) = body_queued body s
    known_queued body (ok (error e), s) = same id s.queue s.queue refl
    known_queued body (err e, s) = same id s.queue s.queue refl
    known_queued body (panic, s) = same id s.queue s.queue refl

    -- However a sync ends, the queue of messages holds what it held, followed only by messages under the
    -- ID of the authenticated caller, whatever IDs the messages of the body claim.
    pub post_sync-Grown :
        (body : HttpBody AgentSyncRequest) (s : Serving)
        → Grown id s.queue (post_sync files conf decrypt now fresh ip id body s).1.queue
    unfolding post_sync
    post_sync-Grown body s = known_queued body (on_db (attempt (agent_exists id)) s)
