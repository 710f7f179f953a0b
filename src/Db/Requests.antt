-- ===== src/Db/Requests.antt =====
-- server/db/agentRequest.go and server/db/requestList.go: the requests that administrators queue
-- for agents, each under its request ID.
pub mod Keeps
pub mod Reads
pub mod Writes
pub mod Deletes
pub mod Prunes
use unify_em.Base.{
  ℕ, ◌+◌, ◌*◌, ◌/◌, String, Bool, true, false, Option, none, some, List, [], ◌∷◌, ◌++◌,
  if◌then◌else◌, Dict, ◌==◌, ltb, Error, fault, wrap, Outcome, ok, err, panic, Exec, ◌>>=◌, ◌>>◌,
  pure, raise, wrapping, attempt, ignore, Result, value, error, agent_id_required,
  request_id_required, bad_record,
}
use unify_em.Schema.{
  AgentRequestRecord, RequestStatus, unset, new, pending, complete, failed, invalid, cancelled,
  new_db_agent_request,
}
use unify_em.Bolt.{Bolt}
use unify_em.Db.Bucket.{
  Db, Stored, decodes, garbage, requests_bucket, set_data, get_data, delete_data, key_exists,
  for_each, deserialized, log,
}

-- A time of `n` days, in nanoseconds and in the seconds of `Unix`. A day is 24 hours: the server's
-- time zone has no shift between the two dates.
abbrev pub day_ns : ℕ
day_ns = 86400000000000

abbrev pub second_ns : ℕ
second_ns = 1000000000

-- t.Unix() < now.AddDate(0, 0, -days).Unix(), without a subtraction
abbrev pub unix_before : ℕ → ℕ → ℕ → Bool
unix_before t now days = ltb (t / second_ns + days * 86400) (now / second_ns)

-- t.Before(now.AddDate(0, 0, -days))
abbrev pub older_than : ℕ → ℕ → ℕ → Bool
older_than t now days = ltb (t + days * day_ns) now

-- The test of CancelAgentRequest.
abbrev pub is_open : RequestStatus → Bool
is_open new = true
is_open pending = true
is_open _ = false

module _ ⦃B : Bolt⦄ where
  unfoldable pub set_agent_request : ℕ → AgentRequestRecord → Exec Db (Unit {0})
  set_agent_request now r =
      if r.agent_id == ""
      then raise (fault agent_id_required)
      else if r.request_id == ""
      then raise (fault request_id_required)
      else wrapping (set_data requests_bucket r.request_id (record r { last_updated = now }))

  unfoldable pub get_agent_request : String → Exec Db AgentRequestRecord
  get_agent_request key = get_data requests_bucket key

  unfoldable pub request_exists : String → Exec Db Bool
  request_exists key = key_exists requests_bucket key

  -- The callback of GetAgentRequests.
  own_request :
      String
      → String
      → Stored AgentRequestRecord
      → List AgentRequestRecord
      → Exec Db (List AgentRequestRecord)
  own_request id key (decodes r) acc = pure (if r.agent_id == id then acc ++ r ∷ [] else acc)
  own_request id key garbage acc = do
    ignore (delete_data requests_bucket key)
    raise (wrap (fault bad_record))

  unfoldable pub get_agent_requests : String → Exec Db (List AgentRequestRecord)
  unfolding own_request for_each
  get_agent_requests id = wrapping (for_each requests_bucket (own_request id) [])

  unfoldable pub delete_agent_request : String → Exec Db (Unit {0})
  delete_agent_request key = delete_data requests_bucket key

  -- The callback of DeleteAgentRequests.
  delete_own : String → String → Stored AgentRequestRecord → Unit {0} → Exec Db (Unit {0})
  delete_own id key (decodes r) _ =
      if r.agent_id == id then wrapping (delete_data requests_bucket key) else pure tt
  delete_own id key garbage _ = raise (wrap (fault bad_record))

  unfoldable pub delete_agent_requests : String → Exec Db (Unit {0})
  unfolding delete_own for_each
  delete_agent_requests id = for_each requests_bucket (delete_own id) tt

  unfoldable pub cancel_agent_request : ℕ → String → Exec Db (Unit {0})
  unfolding get_data set_agent_request
  cancel_agent_request now key = do
    r ← wrapping (get_data requests_bucket key)
    if is_open r.status then set_agent_request now (record r { status = cancelled }) else pure tt

  -- The callback of CancelAgentRequests.
  cancel_own : ℕ → String → String → Stored AgentRequestRecord → Unit {0} → Exec Db (Unit {0})
  unfolding cancel_agent_request
  cancel_own now id key (decodes r) _ =
      if r.agent_id == id then wrapping (cancel_agent_request now key) else pure tt
  cancel_own now id key garbage _ = raise (wrap (fault bad_record))

  unfoldable pub cancel_agent_requests : ℕ → String → Exec Db (Unit {0})
  unfolding cancel_own for_each
  cancel_agent_requests now id = for_each requests_bucket (cancel_own now id) tt

  -- What prune callbacks do after a DeleteData: log its error, or log the success.
  abbrev pub logged : Exec Db (Unit {0}) → Exec Db (Unit {0})
  logged m = attempt m >>= λ _. log

  -- The callback of PruneAgentRequests.
  prune_request : ℕ → ℕ → String → Stored AgentRequestRecord → Unit {0} → Exec Db (Unit {0})
  prune_request now days key (decodes r) _ =
      if unix_before r.last_updated now days
      then logged (delete_data requests_bucket key)
      else pure tt
  prune_request now days key garbage _ = do log; ignore (delete_data requests_bucket key)

  unfoldable pub prune_agent_requests : ℕ → ℕ → Exec Db (Unit {0})
  unfolding prune_request for_each
  prune_agent_requests now days = for_each requests_bucket (prune_request now days) tt

  -- The callback of both lists in requestList.go, with the test of the record's agent.
  listed_request :
      (AgentRequestRecord → Bool)
      → String
      → Stored AgentRequestRecord
      → List AgentRequestRecord
      → Exec Db (List AgentRequestRecord)
  listed_request keep key (decodes r) acc = pure (if keep r then acc ++ r ∷ [] else acc)
  listed_request keep key garbage acc = raise (wrap (fault bad_record))

  unfoldable pub get_agent_request_records : String → Exec Db (List AgentRequestRecord)
  unfolding listed_request for_each
  get_agent_request_records id =
      wrapping (for_each requests_bucket (listed_request (λ r. r.agent_id == id)) [])

  unfoldable pub get_all_request_records : Exec Db (List AgentRequestRecord)
  unfolding listed_request for_each
  get_all_request_records = wrapping (for_each requests_bucket (listed_request (λ _. true)) [])
