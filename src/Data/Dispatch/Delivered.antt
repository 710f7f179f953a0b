-- ===== src/Data/Dispatch/Delivered.antt =====
-- A request that is due is sent at the next sync of its agent.
use mathlib.Core.Path.{subst}
use mathlib.Core.List.{Memᴰ}
use unify_em.Base.{
  ℕ, String, ◌≡◌, ◌≢◌, refl, sym, ap, ◌∙◌, Bool, true, eq_refl, Option, none, some, some_inj, List,
  [], ◌∷◌, ◌==◌, Dict, lookup, ok, Bool-cases, Option-cases, inl, inr, eq_iff,
}
use unify_em.Schema.{AgentRequest, AgentRequestRecord}
use unify_em.Bolt.{Bolt, DistinctKeys}
use unify_em.Commands.Validate.{validate}
use unify_em.Db.Bucket.{Db, Stored, decodes, garbage, requests_bucket}
use unify_em.Db.Bucket.Laws.{found, stored_at}
use unify_em.Db.Requests.Reads.{readable, owned}
use unify_em.Data.Config.{ServerConfig}
use unify_em.Data.Dispatch.{Files, selected, to_agent, with_hash, agent_requests}
use unify_em.Data.Dispatch.Spec.{offered, push, choose, agent_requests_lem}

decodes_inj : {V : Type 0} {v w : V} → decodes v ≡ decodes w → v ≡ w
decodes_inj h = cc

-- The records of a bucket all of which decodes.
readable-all :
    (m : Dict (Stored AgentRequestRecord))
    → DistinctKeys m
    → ((k : String) → lookup k m ≢ some garbage)
    → (rs : List AgentRequestRecord) × (readable m ≡ some rs)
readable-all [] d h = ([], refl)
readable-all ((j, garbage) ∷ m) d h = absurd (h j (rw eq_refl refl))
readable-all ((j, decodes r) ∷ m) d h =
    let (rs, e) = readable-all m d.1 later in (r ∷ rs, rw e refl)
  where
    later : (k : String) → lookup k m ≢ some garbage
    later k bad = elim (Bool-cases (j == k)) [
      | inl same ↦ cc (bad, d.0, (eq_iff j k).0 same)
      | inr differ ↦ h k (rw (differ, bad) refl)
    ]

read_record :
    (k : String) (m : Dict (Stored AgentRequestRecord)) (r : AgentRequestRecord)
    (rs : List AgentRequestRecord)
    → readable m ≡ some rs
    → lookup k m ≡ some (decodes r)
    → Memᴰ r rs
read_record k [] r rs h e = cc
read_record k ((j, garbage) ∷ m) r rs h e = cc
read_record k ((j, decodes q) ∷ m) r rs h e = elim (Option-cases (readable m)) [
  | inl gone ↦ cc (let g : none ≡ some rs = rw gone at h in g)
  | inr (tail, got) ↦ subst (Memᴰ r) (some_inj (rw got at h)) (elim (Bool-cases (j == k)) [
    | inl same ↦ Memᴰ.head (decodes_inj (some_inj (sym (rw same at e))))
    | inr differ ↦ Memᴰ.tail (read_record k m r tail got (rw differ at e))
  ])
]

owned-Mem :
    (id : String) (r : AgentRequestRecord) (rs : List AgentRequestRecord)
    → r.agent_id == id ≡ true
    → Memᴰ r rs
    → Memᴰ r (owned id rs)
owned-Mem id r [] own m = elim m [ ]
owned-Mem id r (q ∷ rs) own (Memᴰ.head same) = rw (← same, own) (Memᴰ.head refl)
owned-Mem id r (q ∷ rs) own (Memᴰ.tail later) = elim (Bool-cases (q.agent_id == id)) [
  | inl e ↦ rw e (Memᴰ.tail (owned-Mem id r rs own later))
  | inr e ↦ rw e (owned-Mem id r rs own later)
]

push-Mem : {A : Type 0} (o : Option A) (a : A) (xs : List A) → Memᴰ a xs → Memᴰ a (push o xs)
push-Mem none a xs m = m
push-Mem (some b) a xs m = Memᴰ.tail m

choose-Mem :
    {A B : Type 0} (f : A → Option B) (a : A) (b : B) (xs : List A)
    → f a ≡ some b
    → Memᴰ a xs
    → Memᴰ b (choose f xs)
choose-Mem f a b [] e m = elim m [ ]
choose-Mem f a b (x ∷ xs) e (Memᴰ.head same) = rw (← same, e) (Memᴰ.head refl)
choose-Mem f a b (x ∷ xs) e (Memᴰ.tail later) =
    push-Mem (f x) b (choose f xs) (choose-Mem f a b xs e later)

module _ ⦃B : Bolt⦄ (fs : Files) (conf : ServerConfig) (now : ℕ) (mark_sent : Bool) where
  -- Where all stored requests decode, a dispatch for an agent succeeds, and every stored request of
  -- that agent that is new or due for a retry, valid, and has a usable download URL is among the
  -- requests that the agent is sent.
  pub due_request_sent :
      (id key : String) (r : AgentRequestRecord) (params : Dict String) (d : Db)
      → ((k : String) → stored_at requests_bucket d k ≢ some garbage)
      → stored_at requests_bucket d key ≡ some (decodes r)
      → r.agent_id == id ≡ true
      → selected conf now r ≡ true
      → validate r.request r.parameters ≡ none
      → with_hash fs r ≡ some params
      → (requests : List AgentRequest) × ((agent_requests fs conf now mark_sent id d).0
          ≡ ok requests)
        × Memᴰ (to_agent r params) requests
  due_request_sent id key r params d clean at own due valid hash = elim (Option-cases d.requests) [
    | inl gone ↦ cc (let g : none ≡ some (decodes r) = rw gone at at in g)
    | inr (b, there) ↦
        let (rs, all) =
          readable-all (B.entries b) (B.entries_distinct _ b)
            (λ k bad. clean k (in_bucket k b there ∙ bad)) in
        (
          choose (offered fs conf now) (owned id rs),
          agent_requests_lem fs conf now mark_sent id d b rs there all,
          choose-Mem (offered fs conf now) r (to_agent r params) (owned id rs)
              (rw (due, valid, hash) refl)
              (owned-Mem id r rs own
                (read_record key (B.entries b) r rs all (sym (in_bucket key b there) ∙ at))),
        )
  ]
    where
      in_bucket :
          (k : String) (b : B.Bucket (Stored AgentRequestRecord))
          → d.requests ≡ some b
          → stored_at requests_bucket d k ≡ lookup k (B.entries b)
      in_bucket k b there = ap (λ o. found o k) there ∙ sym (B.lookup-entries _ b k)
