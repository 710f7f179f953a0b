-- ===== src/Db/Events/Frame.antt =====
-- The operations on events leave the other buckets alone.
use unify_em.Base.{
  String, ◌≡◌, refl, sym, ap, ◌∙◌, Option, none, some, Error, Bool-cases, inl, inr, is_some, fault,
  write_failed,
}
use unify_em.Base.Ensures.{Ensures, Always, Always-ok}
use unify_em.Schema.{AgentEvent}
use unify_em.Bolt.{Bolt}
use unify_em.Db.Bucket.{Db, Slot, Stored}
use unify_em.Db.Bucket.Every.{Every}
use unify_em.Db.Bucket.Laws.{found}
use unify_em.Db.Events.{committed_events, add_event, delete_child, delete_all_events}

module _ ⦃B : Bolt⦄ {V : Type 0} (s : Slot V) (Q : String → V → Type 0) where
  -- A write to the events is not seen in the bucket of `s`.
  abbrev pub ApartEvents : Type 0
  ApartEvents =
      (p : Option (B.Bucket (B.Bucket (Stored AgentEvent)))) (d : Db)
      → s.read (record d { events = p }) ≡ s.read d

  module _ (apart : ApartEvents) where
    committed_apart :
        (e : Error) (d : Db) (o : Option (B.Bucket (B.Bucket (Stored AgentEvent))))
        → s.read (committed_events e d o).1 ≡ s.read d
    committed_apart e d none = refl
    committed_apart e d (some p) = apart (some p) d

    pub add_event-Frame :
        (fresh : String) (e : AgentEvent)
        → Ensures Db (Unit {0}) (Every s Q) Always (add_event fresh e)
    unfolding add_event
    add_event-Frame fresh e = record {
      at = λ d h.
          (λ j w eq. h j w (sym (ap (λ o. found o j) (committed_apart _ d _)) ∙ eq), Always-ok _);
    }

    child_apart :
        (id : String) (d : Db) (o : Option (B.Bucket (B.Bucket (Stored AgentEvent))))
        → s.read (delete_child id d o).1 ≡ s.read d
    unfolding delete_child
    child_apart id d none = refl
    child_apart id d (some p) = elim (Bool-cases (is_some (B.get p id))) [
      | inl e ↦ rw e (committed_apart (fault write_failed) d (B.delete p id))
      | inr e ↦ rw e
    ]

    pub delete_events-Frame :
        (id : String) → Ensures Db (Unit {0}) (Every s Q) Always (delete_all_events id)
    unfolding delete_all_events
    delete_events-Frame id = record {
      at = λ d h.
          (λ j w eq. h j w (sym (ap (λ o. found o j) (child_apart id d _)) ∙ eq), Always-ok _);
    }
