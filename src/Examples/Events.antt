-- ===== src/Examples/Events.antt =====
-- An event that is read back from its key, and queried.
use unify_em.Base.{◌≡◌, refl, none, some, [], ◌∷◌, ok}
use unify_em.Schema.{AgentEvent}
use unify_em.Bolt.Listed.{listed, Listing}
use unify_em.Db.Bucket.{Db, Stored}
use unify_em.Db.Events.{event_key}
use unify_em.Db.Events.Query.{read_time, get_events}
use unify_em.Db.Events.Query.RoundTrip.{read_time-event_key}
use unify_em.Db.Events.Query.Selected.{keyed, get_events_lem}
use unify_em.Db.Events.Prune.{prune_events}
use unify_em.Db.Events.Prune.Kept.{AllKept, prune_events_lem}
use unify_em.Examples.Fixtures.{file}

abbrev boot : AgentEvent
boot = record {
  agent_id = "A-1";
  event_id = "E-1";
  time = 62135596812000000000;
  event_type = "status";
  event = "boot";
  details = [];
}

read_time-event_key_example : read_time (event_key boot) ≡ some 62135596812
read_time-event_key_example = read_time-event_key boot

abbrev child : Listing (Stored AgentEvent)
child = record { items = keyed (boot ∷ []); distinct = (refl, tt) }

abbrev with_event : Db
with_event = record file {
  events = some (record { items = ("A-1", child) ∷ []; distinct = (refl, tt) });
}

get_events_lem_example :
    get_events none (some 62135596812) "status" "A-1" with_event ≡ (ok (boot ∷ []), with_event)
get_events_lem_example =
    get_events_lem none (some 62135596812) "status" "A-1" with_event _ child (boot ∷ []) refl refl
      refl

-- A year later, with a retention of 30 days.
prune_events_lem_example :
    (new : listed.Bucket (listed.Bucket (Stored AgentEvent))) × ((prune_events 62167132800000000000
        30 with_event).1
      ≡ record with_event { events = some new })
    × AllKept 62167132800000000000 30
        (record { items = ("A-1", child) ∷ []; distinct = (refl, tt) })
        new
prune_events_lem_example = prune_events_lem 62167132800000000000 30 with_event _ refl
