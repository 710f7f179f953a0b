-- ===== src/Data/Sync/Answers.antt =====
-- What one response to a request of the server does.
use unify_em.Base.{
  ℕ, String, ◌≡◌, refl, ap, Bool-cases, none, lookup, has_key, lookup-insert, ◌∙◌, Option, true,
  false, some, err, ◌==◌, ◌&&◌, fault, wrap, agent_mismatch, if◌then◌else◌, wrapped, Outcome, ◌⊎◌,
  inl, inr, write_failed,
}
use unify_em.Schema.{AgentRequestRecord, AgentResponse, complete, failed}
use unify_em.Schema.Values.{Json, null}
use unify_em.Bolt.{Bolt}
use unify_em.Db.Bucket.{Db, decodes, requests_bucket, get_data, set_data}
use unify_em.Db.Bucket.Laws.{stored_at, stored_at-set_data, found-fetched, set_data_ends}
use unify_em.Db.Requests.{get_agent_request, set_agent_request}
use unify_em.Data.Config.{ServerConfig}
use unify_em.Data.Sync.{process_agent_response, answer, answered, redacted, json_of}

-- The response names a request of the server, not one of the two fixed IDs.
abbrev pub NamesRequest : AgentResponse → Type 0
NamesRequest resp =
    (resp.request_id == "status" ≡ false)
    × (resp.request_id == "none" && resp.cmd == "refresh_service_account" ≡ false)

module _ ⦃B : Bolt⦄ (now : ℕ) (fresh : String) (decrypt : String → String → Option String)
    (conf : ServerConfig) (id : String) (resp : AgentResponse) (r : AgentRequestRecord)
    (d : Db) where
  read_lem :
      NamesRequest resp
      → stored_at requests_bucket d resp.request_id ≡ some (decodes r)
      → process_agent_response now fresh decrypt conf id resp d ≡ answer now fresh id resp r d
  unfolding process_agent_response get_agent_request get_data
  read_lem names h = rw (names.0, names.1, found-fetched d.requests resp.request_id h)

  -- A response that names a stored request of another agent is an error, and the database stays as
  -- it was.
  pub foreign_response_refused :
      NamesRequest resp
      → stored_at requests_bucket d resp.request_id ≡ some (decodes r)
      → r.agent_id == id ≡ false
      → process_agent_response now fresh decrypt conf id resp d ≡ (err (fault agent_mismatch), d)
  unfolding answer
  foreign_response_refused names h other = read_lem names h ∙ rw other refl

  abbrev closing : AgentRequestRecord
  closing = record (answered r resp) { last_updated = now }

  -- What the answered record is: all of the request but its end, with the response's text and data, as
  -- complete or failed as the response says, and with a password that was among the parameters masked.
  pub record Closes (x : AgentRequestRecord) : Type 0 where
    pub same : x ≡ record r {
      status = if resp.success then complete else failed;
      response_details = resp.response;
      response_data = elim resp.payload [ none ↦ null | some j ↦ j ];
      last_updated = now;
      parameters = x.parameters;
    }
    pub masks :
        (key : String)
        → lookup key x.parameters ≡ (
            if has_key "password" r.parameters && "password" == key
            then some "********"
            else lookup key r.parameters)

  masked :
      (key : String)
      → lookup key (redacted r.parameters) ≡ (
          if has_key "password" r.parameters && "password" == key
          then some "********"
          else lookup key r.parameters)
  masked key = elim (Bool-cases (has_key "password" r.parameters)) [
    | inl has ↦ rw has (lookup-insert "password" key _ r.parameters)
    | inr has_none ↦ rw has_none refl
  ]

  data_lem : (o : Option Json) → json_of o ≡ elim o [ none ↦ null | some j ↦ j ]
  data_lem none = refl
  data_lem (some j) = refl

  closing-Closes : Closes closing
  unfolding answered
  closing-Closes = record {
    same = ap (λ j. record closing { response_data = j }) (data_lem resp.payload);
    masks = masked;
  }

  -- The record is stored under the request's ID and no other request is changed.
  pub record Answered (d' : Db) : Type 0 where
    pub own : r.agent_id == id ≡ true
    pub closed : AgentRequestRecord
    pub closes : Closes closed
    pub at :
        (key : String)
        → stored_at requests_bucket d' key
          ≡ (if r.request_id == key then some (decodes closed) else stored_at requests_bucket d key)

  abbrev written : Outcome (Unit {0}) × Db
  written = set_data requests_bucket r.request_id closing d

  stores :
      r.agent_id == "" ≡ false
      → r.request_id == "" ≡ false
      → set_agent_request now (answered r resp) d ≡ (wrapped written.0, written.1)
  unfolding set_agent_request answered
  stores a k = rw (a, k)

  -- A response that is not a status report, to a stored request with its IDs set: where the request is
  -- another agent's it is an error and nothing is changed. Where it is the agent's own, the request is
  -- stored as closed, complete or failed as the response says, with the response's text and data, the
  -- time of the answer and its password masked, and no other request is changed; or the write fails
  -- and no request is changed.
  pub response_stored :
      NamesRequest resp
      → stored_at requests_bucket d resp.request_id ≡ some (decodes r)
      → r.agent_id == "" ≡ false
      → r.request_id == "" ≡ false
      → resp.cmd == "status" ≡ false
      → ((r.agent_id == id ≡ false)
          × (process_agent_response now fresh decrypt conf id resp d
              ≡ (err (fault agent_mismatch), d)))
        ⊎ Answered (process_agent_response now fresh decrypt conf id resp d).1
        ⊎ (((process_agent_response now fresh decrypt conf id resp d).0
              ≡ err (wrap (wrap (wrap (fault write_failed)))))
            × ((key : String)
                → stored_at requests_bucket
                    (process_agent_response now fresh decrypt conf id resp d).1
                    key
                  ≡ stored_at requests_bucket d key))
  unfolding answer
  response_stored names h a k cmd = elim (Bool-cases (r.agent_id == id)) [
    | inr other ↦ inl (other, foreign_response_refused names h other)
    | inl own ↦
        rw (read_lem names h, own, cmd, stores a k)
          (elim (set_data_ends requests_bucket r.request_id closing d) [
            | inl e ↦ inr (
                inl (record {
                  own = own;
                  closed = closing;
                  closes = closing-Closes;
                  at = λ key.
                      rw e
                        (stored_at-set_data requests_bucket r.request_id closing d key ∙ rw e refl);
                }))
            | inr e ↦ inr (
                inr (
                  rw e refl,
                  λ key.
                      rw e
                        (stored_at-set_data requests_bucket r.request_id closing d key ∙ rw e refl),
                ))
          ])
  ]
