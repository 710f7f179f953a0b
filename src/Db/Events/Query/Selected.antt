-- ===== src/Db/Events/Query/Selected.antt =====
-- Which events GetEvents returns.
use mathlib.Core.List.{append-nil, append_assoc}
use unify_em.Base.{
  ℕ, ◌/◌, String, ◌≡◌, refl, sym, ap, ◌∙◌, Bool, true, false, ◌&&◌, Option, some, List, [], ◌∷◌,
  ◌++◌, if◌then◌else◌, ok, Bool-cases, inl, inr, Dict,
}
use unify_em.Schema.{AgentEvent}
use unify_em.Bolt.{Bolt}
use unify_em.Db.Bucket.{Db, Stored, decodes}
use unify_em.Db.Events.{event_key}
use unify_em.Db.Events.Query.{
  in_range, of_type, and_then, select, visit_event, visit_events, visit_child, visit_parent,
  get_events, read_time,
}
use unify_em.Db.Events.Query.RoundTrip.{read_time-event_key}

-- Events as AddEvent stores them.
abbrev pub keyed : List AgentEvent → Dict (Stored AgentEvent)
keyed [] = []
keyed (e ∷ es) = (event_key e, decodes e) ∷ keyed es

module _ (start end : Option ℕ) (event_type : String) where
  abbrev pub is_wanted : AgentEvent → Bool
  is_wanted e = in_range start end (e.time / 1000000000) && of_type event_type e

  abbrev pub wanted : List AgentEvent → List AgentEvent
  wanted [] = []
  wanted (e ∷ es) = if is_wanted e then e ∷ wanted es else wanted es

  one_event :
      (e : AgentEvent) (acc : List AgentEvent)
      → visit_event start end event_type (read_time (event_key e)) (decodes e) acc
        ≡ ok (if is_wanted e then acc ++ e ∷ [] else acc)
  unfolding visit_event select
  one_event e acc = elim (Bool-cases (in_range start end (e.time / 1000000000))) [
    | inl i ↦ rw (read_time-event_key e, i) refl
    | inr i ↦ rw (read_time-event_key e, i) refl
  ]

  all_events :
      (es acc : List AgentEvent)
      → visit_events start end event_type (keyed es) acc ≡ ok (acc ++ wanted es)
  unfolding visit_events
  all_events [] acc = ap ok (sym (append-nil acc))
  all_events (e ∷ es) acc =
      ap (λ o. and_then o (visit_events start end event_type (keyed es))) (one_event e acc)
      ∙ chosen (is_wanted e) (λ a. all_events es a)
    where
      chosen :
          (b : Bool)
          → ((a : List AgentEvent)
              → visit_events start end event_type (keyed es) a ≡ ok (a ++ wanted es))
          → visit_events start end event_type (keyed es) (if b then acc ++ e ∷ [] else acc)
            ≡ ok (acc ++ (if b then e ∷ wanted es else wanted es))
      chosen true later = later (acc ++ e ∷ []) ∙ ap ok (append_assoc acc (e ∷ []) (wanted es))
      chosen false later = later acc

  -- Of an agent whose bucket holds events as AddEvent stores them, GetEvents returns, in the bucket's
  -- order, exactly those whose time in whole seconds is in the range and whose type is the one asked
  -- for, if one is; the database stays as it was.
  pub get_events_lem :
      ⦃B : Bolt⦄ (id : String) (d : Db) (parent : B.Bucket (B.Bucket (Stored AgentEvent)))
      (child : B.Bucket (Stored AgentEvent)) (es : List AgentEvent)
      → d.events ≡ some parent
      → B.get parent id ≡ some child
      → B.entries child ≡ keyed es
      → get_events start end event_type id d ≡ (ok (wanted es), d)
  unfolding get_events visit_parent visit_child
  get_events_lem id d parent child es p c e =
      ap (λ o. (visit_parent start end event_type id o, d)) p
      ∙ ap (λ o. (visit_child start end event_type o, d)) c
      ∙ ap (λ m. (visit_events start end event_type m [], d)) e
      ∙ ap (λ o. (o, d)) (all_events es [])
