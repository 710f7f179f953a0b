-- ===== src/Api/History.antt =====
-- server/api/events.go: an administrator asks for an agent's events.
use Prim.Native.String.{◌++◌ as ◌+++◌}
use unify_em.Base.{
  ℕ, zero, suc, ◌+◌, ◌-◌, String, Option, none, some, List, if◌then◌else◌, ◌==◌, ◌⊎◌, inl, inr,
  Error, root_cause, Exec, ◌>>=◌, pure, attempt, Result, value, error,
}
use unify_em.Base.Int.{ℤ, pos, negsuc, atoi}
use unify_em.Schema.{AgentEvent}
use unify_em.Bolt.{Bolt}
use unify_em.Db.Bucket.{Db}
use unify_em.Db.Agents.{agent_exists, is_not_found}
use unify_em.Db.Events.{unix_epoch}
use unify_em.Db.Events.Query.{get_events}
use unify_em.Api.Http.{Details, JResponse, failure, caused, of_library, events, ok_with, refuse}

-- The parameters of the URL; one that is not there is empty.
pub record EventQuery : Type 0 where
  pub agent_id : String
  pub start : String
  pub end : String
  pub start_time : String
  pub end_time : String
  pub event_type : String

-- Unix seconds as seconds since Go's zero time. 0 is no bound, and one before that time is as good as
-- that time itself.
abbrev pub bound_of : ℤ → Option ℕ
bound_of (pos zero) = none
bound_of (pos (suc n)) = some (unix_epoch + suc n)
bound_of (negsuc n) = some (unix_epoch - suc n)

-- `day` is time.Parse of a date in the form YYYYMMDD, in Unix seconds.
parse_day : (String → Option ℤ) → String → Option ℤ
parse_day day s = if s == "" then some (pos 0) else day s

-- A time in seconds takes the place of the date.
parse_time : String → ℤ → Option ℤ
parse_time s t = if s == "" then some t else atoi s

-- A bound of the range, or what is wrong with it.
precise_bound : String → String → Option ℤ → Details ⊎ ℤ
precise_bound name time none = inl (of_library ("invalid " +++ name +++ " date: "))
precise_bound name time (some t) = elim (parse_time time t) [
  | none ↦ inl (of_library ("invalid " +++ name +++ "_time: "))
  | some t' ↦ inr t'
]

parse_bound : (String → Option ℤ) → String → String → String → Details ⊎ ℤ
unfolding parse_day precise_bound parse_time
parse_bound day name date time = precise_bound name time (parse_day day date)

events_as : Result (List AgentEvent) → JResponse
events_as (value es) = ok_with (events es)
events_as (error e) = refuse 500 "error retrieving events"

bad_bound : Details → JResponse
bad_bound details = record { http_code = 400; json_data = failure "error" details }

agent_refused : Error → JResponse
agent_refused e = if is_not_found (root_cause e) then refuse 404 "agent not found" else record {
  http_code = 500;
  json_data = failure "error" (caused "error validating agent ID: " e);
}

module _ ⦃B : Bolt⦄ (day : String → Option ℤ) where
  events_between : EventQuery → Details ⊎ ℤ → Details ⊎ ℤ → Exec Db JResponse
  unfolding events_as bad_bound
  events_between q (inl details) e = pure (bad_bound details)
  events_between q (inr s) (inl details) = pure (bad_bound details)
  events_between q (inr s) (inr e) = do
    found ← attempt (get_events (bound_of s) (bound_of e) q.event_type q.agent_id)
    pure (events_as found)

  events_of : EventQuery → Result (Unit {0}) → Exec Db JResponse
  unfolding agent_refused events_between parse_bound
  events_of q (error e) = pure (agent_refused e)
  events_of q (value u) =
      events_between q (parse_bound day "start" q.start q.start_time)
        (parse_bound day "end" q.end q.end_time)

  -- getEvents of server/api
  unfoldable pub list_events : EventQuery → Exec Db JResponse
  unfolding events_of
  list_events q = do known ← attempt (agent_exists q.agent_id); events_of q known
