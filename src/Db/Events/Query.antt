-- ===== src/Db/Events/Query.antt =====
-- server/db/events.go: GetEvents, and the time that it reads from an event's key.
pub mod RoundTrip
pub mod Selected
use Prim.Native.Char.{code}
use unify_em.Base.{
  ℕ, ◌+◌, ◌-◌, ◌*◌, String, ◌≡◌, Bool, true, false, Option, none, some, List, [], ◌∷◌, ◌++◌, ◌&&◌,
  ◌||◌, if◌then◌else◌, leb, nat_eq, ◌==◌, Error, fault, wrap, Outcome, ok, err, panic, Exec, ◌>>=◌,
  ◌>>◌, pure, raise, bucket_not_found, bad_record, bad_key, Dict,
}
use unify_em.Base.Decimal.{next}
use unify_em.Schema.{AgentEvent}
use unify_em.Bolt.{Bolt}
use unify_em.Db.Bucket.{Db, Stored, decodes, garbage, visit}
use unify_em.Db.Events.{unix_epoch}

-- Digits up to a "-"; at least one.
read_digits : Option ℕ → String → Option ℕ
read_digits acc String.[] = none
read_digits acc (String.◌∷◌ c s) =
    let n = code c in
    let rest = read_digits (next acc (n - b'0')) s in
    if leb b'0' n && leb n b'9' then rest else if nat_eq n b'-' then acc else none

abbrev after_epoch : Option ℕ → Option ℕ
after_epoch none = none
after_epoch (some n) = some (unix_epoch + n)

abbrev before_epoch : Option ℕ → Option ℕ
before_epoch none = none
before_epoch (some n) = some (unix_epoch - n)

-- fmt.Sscanf(key, "%d-", &eventTime), in seconds since Go's zero time. A key that begins with a space,
-- or whose number is before that time or above an int64, is not among those that AddEvent writes.
unfoldable pub read_time : String → Option ℕ
unfolding read_digits
read_time String.[] = none
read_time (String.◌∷◌ c s) =
    if nat_eq (code c) b'-'
    then before_epoch (read_digits none s)
    else if nat_eq (code c) b'+'
    then after_epoch (read_digits none s)
    else after_epoch (read_digits none (String.◌∷◌ c s))

-- A bound of 0 is none.
abbrev pub from : Option ℕ → ℕ → Bool
from none t = true
from (some s) t = leb s t

abbrev pub until : Option ℕ → ℕ → Bool
until none t = true
until (some s) t = leb t s

abbrev pub in_range : Option ℕ → Option ℕ → ℕ → Bool
in_range start end t = from start t && until end t

abbrev pub of_type : String → AgentEvent → Bool
of_type event_type e = event_type == "" || e.event_type == event_type

abbrev pub and_then {ℓ κ} : {A : Type ℓ} {B : Type κ} → Outcome A → (A → Outcome B) → Outcome B
and_then (ok a) f = f a
and_then (err e) f = err e
and_then panic f = panic

module _ (start end : Option ℕ) (event_type : String) where
  select : Stored AgentEvent → List AgentEvent → Outcome (List AgentEvent)
  select (decodes e) acc = ok (if of_type event_type e then acc ++ e ∷ [] else acc)
  select garbage acc = err (wrap (fault bad_record))

  -- The callback: the time is read from the key, and only an event in the range is deserialized.
  visit_event : Option ℕ → Stored AgentEvent → List AgentEvent → Outcome (List AgentEvent)
  unfolding select
  visit_event none v acc = err (wrap (fault bad_key))
  visit_event (some t) v acc = if in_range start end t then select v acc else ok acc

  -- What was appended before an error is returned beside it; the callers drop it.
  visit_events : Dict (Stored AgentEvent) → List AgentEvent → Outcome (List AgentEvent)
  unfolding visit_event
  visit_events [] acc = ok acc
  visit_events ((key, v) ∷ rest) acc =
      and_then (visit_event (read_time key) v acc) (visit_events rest)

  module _ ⦃B : Bolt⦄ where
    visit_child : Option (B.Bucket (Stored AgentEvent)) → Outcome (List AgentEvent)
    unfolding visit_events
    visit_child none = err (fault bucket_not_found)
    visit_child (some child) = visit_events (B.entries child) []

    visit_parent :
        String → Option (B.Bucket (B.Bucket (Stored AgentEvent))) → Outcome (List AgentEvent)
    unfolding visit_child
    visit_parent id none = err (fault bucket_not_found)
    visit_parent id (some parent) = visit_child (B.get parent id)

    unfoldable pub get_events : String → Exec Db (List AgentEvent)
    unfolding visit_parent
    get_events id d = (visit_parent id d.events, d)
