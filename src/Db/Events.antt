-- ===== src/Db/Events.antt =====
-- server/db/events.go: each agent has a child bucket of events, under the event's time and ID.
pub mod Frame
pub mod Query
pub mod Prune
use Prim.Native.String.{◌++◌ as ◌+++◌}
use unify_em.Base.{
  ℕ, zero, suc, ◌+◌, ◌-◌, ◌/◌, ◌%◌, String, Option, none, some, List, [], ◌∷◌, if◌then◌else◌, ltb,
  nat_eq, ◌==◌, Error, fault, wrap, Outcome, ok, err, Exec, bucket_not_found, write_failed, is_some,
  ◌≡◌, refl,
}
use unify_em.Base.Decimal.{digit, digits}
use unify_em.Schema.{AgentEvent}
use unify_em.Bolt.{Bolt}
use unify_em.Db.Bucket.{Db, Stored, decodes, or_empty}

-- The Unix epoch, in seconds since Go's zero time.
abbrev pub unix_epoch : ℕ
unix_epoch = 62135596800

-- The `%d` of a time's Unix seconds.
unix_text : ℕ → String
unfolding digits digit
unix_text t =
    let s = t / 1000000000 in
    if ltb s unix_epoch
    then "-" +++ digits (suc (unix_epoch - s)) (unix_epoch - s)
    else digits (suc (s - unix_epoch)) (s - unix_epoch)

-- fmt.Sprintf("%d-%s", event.Time.Unix(), event.EventID)
unfoldable pub event_key : AgentEvent → String
unfolding unix_text
event_key e = unix_text e.time +++ ("-" +++ e.event_id)

module _ ⦃B : Bolt⦄ where
  -- The child bucket of the agent, with the event put into it; `fresh` is the new UUID.
  put_event :
      String → AgentEvent → B.Bucket (Stored AgentEvent) → Option (B.Bucket (Stored AgentEvent))
  put_event fresh e child =
      let named = if e.event_id == "" then record e { event_id = "E-" +++ fresh } else e in
      B.put child (event_key named) (decodes named)

  put_child :
      String
      → Option (B.Bucket (Stored AgentEvent))
      → B.Bucket (B.Bucket (Stored AgentEvent))
      → Option (B.Bucket (B.Bucket (Stored AgentEvent)))
  put_child id none parent = none
  put_child id (some child) parent = B.put parent id child

  -- One transaction: where a step fails nothing is kept.
  abbrev pub committed_events :
      Error → Db → Option (B.Bucket (B.Bucket (Stored AgentEvent))) → Outcome (Unit {0}) × Db
  committed_events e d none = (err e, d)
  committed_events e d (some p) = (ok tt, record d { events = some p })

  unfoldable pub add_event : String → AgentEvent → Exec Db (Unit {0})
  unfolding put_event put_child
  add_event fresh e d =
      let parent = or_empty d.events in
      committed_events (wrap (fault write_failed)) d
        (put_child e.agent_id (put_event fresh e (or_empty (B.get parent e.agent_id))) parent)

  delete_child :
      String → Db → Option (B.Bucket (B.Bucket (Stored AgentEvent))) → Outcome (Unit {0}) × Db
  delete_child id d none = (err (fault bucket_not_found), d)
  delete_child id d (some parent) =
      if is_some (B.get parent id)
      then committed_events (fault write_failed) d (B.delete parent id)
      else (err (fault bucket_not_found), d)

  unfoldable pub delete_all_events : String → Exec Db (Unit {0})
  unfolding delete_child
  delete_all_events id d = delete_child id d d.events
