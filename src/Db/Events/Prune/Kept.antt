-- ===== src/Db/Events/Prune/Kept.antt =====
-- What PruneEvents keeps.
use mathlib.Core.Path.{subst}
use unify_em.Base.{
  ℕ, String, ◌≡◌, refl, sym, ap, ◌∙◌, Bool, true, false, Option, none, some, List, [], ◌∷◌, ◌++◌,
  ◌⊎◌, inl, inr, if◌then◌else◌, ◌==◌, Dict, lookup, Outcome, ok, err, panic, Bool-cases, eq_iff,
  eq_refl, All,
}
use unify_em.Base.Ensures.{OnOk}
use unify_em.Schema.{AgentEvent}
use unify_em.Bolt.{Bolt, DistinctKeys}
use unify_em.Db.Bucket.{Db, Stored}
use unify_em.Db.Events.Query.{read_time, and_then}
use unify_em.Db.Events.Prune.{
  is_due, logged, or_unchanged, delete_keys, drop_bad, collect, stored_child, prune_children,
  transaction_end, prune_parent, prune_events,
}

module _ ⦃B : Bolt⦄ where
  abbrev Child : Type 0
  Child = B.Bucket (Stored AgentEvent)

  -- One bucket of events is another less some keys that are due.
  abbrev pub IsPruned : ℕ → ℕ → Child → Child → Type 0
  IsPruned now days old new =
      (key : String)
      → (B.get new key ≡ B.get old key)
        ⊎ ((is_due now days (read_time key) ≡ true) × (B.get new key ≡ none))

  module _ (now days : ℕ) where
    delete-IsPruned :
        (key : String) (old child : Child) (o : Option Child)
        → B.delete child key ≡ o
        → is_due now days (read_time key) ≡ true
        → IsPruned now days old child
        → IsPruned now days old (or_unchanged child o)
    delete-IsPruned key old child none e due h j = h j
    delete-IsPruned key old child (some c) e due h j = elim (Bool-cases (key == j)) [
      | inl same ↦ inr (
        ap (λ k. is_due now days (read_time k)) (sym ((eq_iff key j).0 same)) ∙ due,
        B.get-delete _ child key c e j ∙ rw same refl,
      )
      | inr other ↦ rw (B.get-delete _ child key c e j, other) (h j)
    ]

    abbrev AllDue : List String → Type 0
    AllDue keys = All (λ k. is_due now days (read_time k) ≡ true) keys

    AllDue-snoc :
        (keys : List String) (key : String)
        → AllDue keys
        → is_due now days (read_time key) ≡ true
        → AllDue (keys ++ key ∷ [])
    AllDue-snoc [] key h due = (due, tt)
    AllDue-snoc (k ∷ keys) key h due = (h.0, AllDue-snoc keys key h.1 due)

    OnOk-logged :
        {A : Type 0} (P : A → Type 0) (has_logger : Bool) (o : Outcome A)
        → OnOk P o
        → OnOk P (logged has_logger o)
    OnOk-logged P true o h = h
    OnOk-logged P false o h = tt

    OnOk-and_then :
        {A C : Type 0} (P : A → Type 0) (Q : C → Type 0) (o : Outcome A) (f : A → Outcome C)
        → OnOk P o
        → ((a : A) → P a → OnOk Q (f a))
        → OnOk Q (and_then o f)
    OnOk-and_then P Q (ok a) f h k = k a h
    OnOk-and_then P Q (err e) f h k = tt
    OnOk-and_then P Q panic f h k = tt

    module _ (has_logger : Bool) (old : Child) where
      delete_keys-IsPruned :
          (keys : List String) (child : Child)
          → AllDue keys
          → IsPruned now days old child
          → OnOk (IsPruned now days old) (delete_keys has_logger keys child)
      unfolding delete_keys
      delete_keys-IsPruned [] child all h = h
      delete_keys-IsPruned (key ∷ keys) child all h =
          OnOk-logged (IsPruned now days old) has_logger _ (
            delete_keys-IsPruned keys (or_unchanged child (B.delete child key)) all.1
              (delete-IsPruned key old child (B.delete child key) refl all.0 h))

      drop_bad-IsPruned :
          (t : Option ℕ) (key : String) (child : Child)
          → read_time key ≡ t
          → IsPruned now days old child
          → OnOk (IsPruned now days old) (drop_bad has_logger t key child)
      unfolding drop_bad
      drop_bad-IsPruned (some t) key child e h = h
      drop_bad-IsPruned none key child e h =
          OnOk-logged (IsPruned now days old) has_logger (ok _)
            (delete-IsPruned key old child (B.delete child key) refl (rw e refl) h)

      still_due :
          (due : List String) (key : String)
          → AllDue due
          → AllDue (if is_due now days (read_time key) then due ++ key ∷ [] else due)
      still_due due key all = elim (Bool-cases (is_due now days (read_time key))) [
        | inl e ↦ rw e (AllDue-snoc due key all e)
        | inr e ↦ rw e all
      ]

      collect-IsPruned :
          (m : Dict (Stored AgentEvent)) (due : List String) (child : Child)
          → AllDue due
          → IsPruned now days old child
          → OnOk (IsPruned now days old) (collect has_logger now days due m child)
      unfolding collect
      collect-IsPruned [] due child all h = delete_keys-IsPruned due child all h
      collect-IsPruned ((key, v) ∷ rest) due child all h =
          OnOk-and_then (IsPruned now days old) (IsPruned now days old) _ _
            (drop_bad-IsPruned (read_time key) key child refl h)
            (λ c kept. collect-IsPruned rest _ c (still_due due key all) kept)

    abbrev pub ChildKept : Option Child → Option Child → Type 0
    ChildKept none o = o ≡ none
    ChildKept (some old) o = (new : Child) × (o ≡ some new) × IsPruned now days old new

    -- Every agent's bucket is there as before, less some keys that are due.
    abbrev pub AllKept : B.Bucket Child → B.Bucket Child → Type 0
    AllKept old new = (id : String) → ChildKept (B.get old id) (B.get new id)

    ChildKept-refl : (o : Option Child) → ChildKept o o
    ChildKept-refl none = refl
    ChildKept-refl (some c) = (c, refl, λ key. inl refl)

    abbrev Found : B.Bucket Child → String × Child → Type 0
    Found old p = B.get old p.0 ≡ some p.1

    put_kept :
        (old parent : B.Bucket Child) (id : String) (child pruned : Child)
        (o : Option (B.Bucket Child))
        → B.put parent id pruned ≡ o
        → B.get old id ≡ some child
        → IsPruned now days child pruned
        → AllKept old parent
        → OnOk (AllKept old) (stored_child o)
    unfolding stored_child
    put_kept old parent id child pruned none e at pr h = tt
    put_kept old parent id child pruned (some p) e at pr h = λ j. elim (Bool-cases (id == j)) [
      | inl same ↦
          rw (← (eq_iff id j).0 same, B.get-put _ parent id pruned p e id, eq_refl id, at)
            (pruned, refl, pr)
      | inr other ↦ rw (B.get-put _ parent id pruned p e j, other) (h j)
    ]

    children_pruned :
        (has_logger : Bool) (old : B.Bucket Child) (m : Dict Child) (parent : B.Bucket Child)
        → All (Found old) m
        → AllKept old parent
        → OnOk (AllKept old) (prune_children has_logger now days m parent)
    unfolding prune_children
    children_pruned has_logger old [] parent all h = h
    children_pruned has_logger old ((id, child) ∷ rest) parent all h =
        OnOk-and_then (IsPruned now days child) (AllKept old) _ _
          (collect-IsPruned has_logger child (B.entries child) [] child tt (λ key. inl refl))
          (λ pruned pr.
            OnOk-and_then (AllKept old) (AllKept old) _ _
              (put_kept old parent id child pruned (B.put parent id pruned) refl all.0 pr h)
              (λ p kept. children_pruned has_logger old rest p all.1 kept))

    All-Found :
        (old : B.Bucket Child) (m : Dict Child)
        → DistinctKeys m
        → ((id : String) (c : Child) → lookup id m ≡ some c → B.get old id ≡ some c)
        → All (Found old) m
    All-Found old [] d h = tt
    All-Found old ((id, c) ∷ m) d h = (
      h id c (rw eq_refl refl),
      All-Found old m d.1 λ j c' there. h j c' (elim (Bool-cases (id == j)) [
        | inl same ↦ cc (let g : none ≡ some c' = rw (← (eq_iff id j).0 same, d.0) at there in g)
        | inr other ↦ rw other there
      ]),
    )

    parent_pruned :
        (d : Db) (old : B.Bucket Child) (o : Outcome (B.Bucket Child))
        → d.events ≡ some old
        → OnOk (AllKept old) o
        → (new : B.Bucket Child) × ((transaction_end d o).1 ≡ record d { events = some new })
          × AllKept old new
    unfolding transaction_end
    parent_pruned d old (ok new) e h = (new, refl, h)
    parent_pruned d old (err x) e h =
        (old, (λ i. record d { events = e i }), λ id. ChildKept-refl (B.get old id))
    parent_pruned d old panic e h =
        (old, (λ i. record d { events = e i }), λ id. ChildKept-refl (B.get old id))

    -- However PruneEvents ends, it has changed nothing but the events; every agent's bucket of events
    -- is there as before, and an event is gone only if its time, read from its key, is before the
    -- cutoff or cannot be read.
    pub prune_events_lem :
        (d : Db) (old : B.Bucket Child)
        → d.events ≡ some old
        → (new : B.Bucket Child) × ((prune_events now days d).1 ≡ record d { events = some new })
          × AllKept old new
    unfolding prune_events prune_parent
    prune_events_lem d old e = subst (KeptAs d old) (sym e) (
        parent_pruned d old _ e (
          children_pruned d.has_logger old (B.entries old) old
            (All-Found old (B.entries old) (B.entries_distinct _ old)
              (λ id c there. sym (B.lookup-entries _ old id) ∙ there))
            (λ id. ChildKept-refl (B.get old id))))
      where
        KeptAs : Db → B.Bucket Child → Option (B.Bucket Child) → Type 0
        KeptAs d old o =
            (new : B.Bucket Child) × ((prune_parent now days d o).1
              ≡ record d { events = some new })
            × AllKept old new
