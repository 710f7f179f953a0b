-- ===== src/Api/Requests.antt =====
-- server/api/request.go: the handlers that show, delete and cancel requests.
pub mod Masked
use unify_em.Base.{
  ℕ, String, Bool, true, false, List, [], ◌∷◌, if◌then◌else◌, ◌==◌, Exec, ◌>>=◌, ◌>>◌, pure,
  attempt, wrapping, Result, value, error,
}
use unify_em.Schema.{AgentRequestRecord}
use unify_em.Bolt.{Bolt}
use unify_em.Db.Bucket.{Db}
use unify_em.Db.Requests.{
  get_agent_request, get_all_request_records, get_agent_request_records, delete_agent_request,
  cancel_agent_request, cancel_agent_requests,
}
use unify_em.Data.Sync.{redacted}
use unify_em.Api.Http.{JResponse, generic, request_status, ok_with, refuse, with_param}

-- The loop that hides the password of every request.
pub masked : List AgentRequestRecord → List AgentRequestRecord
masked [] = []
masked (r ∷ rs) = record r { parameters = redacted r.parameters } ∷ masked rs

shown_or : JResponse → Result (List AgentRequestRecord) → JResponse
unfolding masked
shown_or refusal (value rs) = ok_with (request_status (masked rs))
shown_or refusal (error e) = refusal

changed_or : String → JResponse → Result (Unit {0}) → JResponse
changed_or details refusal (value u) = ok_with (generic details)
changed_or details refusal (error e) = refusal

module _ ⦃B : Bolt⦄ where
  -- GetRequestRecord of server/data: a list of the one request
  unfoldable pub get_request_record : String → Exec Db (List AgentRequestRecord)
  get_request_record id = do r ← wrapping (get_agent_request id); pure (r ∷ [])

  unfoldable pub get_request : String → Exec Db JResponse
  unfolding shown_or
  get_request id =
      if id == ""
      then (do
        rs ← attempt get_all_request_records
        pure (shown_or (refuse 500 "error retrieving requests") rs))
      else (do
        rs ← attempt (get_request_record id)
        pure (shown_or (refuse 404 "request not found") rs))

  unfoldable pub get_agent_requests : String → Exec Db JResponse
  unfolding shown_or with_param
  get_agent_requests id = with_param "agent ID required" id λ id. do
    rs ← attempt (get_agent_request_records id)
    pure (shown_or (refuse 500 "error retrieving agent requests") rs)

  unfoldable pub delete_request : String → Exec Db JResponse
  unfolding changed_or with_param
  delete_request id = with_param "request ID required" id λ id. do
    gone ← attempt (delete_agent_request id)
    pure (changed_or "request deleted" (refuse 404 "request not found") gone)

  unfoldable pub cancel_request : ℕ → String → Exec Db JResponse
  unfolding changed_or with_param
  cancel_request now id = with_param "request ID required" id λ id. do
    done ← attempt (cancel_agent_request now id)
    pure (changed_or "request cancelled" (refuse 404 "request not found") done)

  unfoldable pub cancel_requests : ℕ → String → Exec Db JResponse
  unfolding changed_or with_param
  cancel_requests now id = with_param "agent ID required" id λ id. do
    done ← attempt (cancel_agent_requests now id)
    pure (changed_or "agent requests cancelled" (refuse 404 "agent not found") done)
