-- ===== src/Db/Requests/Keeps.antt =====
-- An invariant of the stored requests through each operation of server/db/agentRequest.go.
use unify_em.Base.{
  ℕ, String, ◌≡◌, refl, true, List, [], ◌∷◌, ◌++◌, ◌==◌, fault, wrap, bad_record, agent_id_required,
  request_id_required, Bool-cases, inl, inr, All,
}
use unify_em.Base.Ensures.{
  Ensures, Always, Ensures-pure, Ensures-bind, Ensures-raise, Ensures-if, Ensures-wrapping,
  Ensures-ignore, Ensures-attempt,
}
use unify_em.Schema.{AgentRequestRecord, cancelled}
use unify_em.Bolt.{Bolt}
use unify_em.Db.Bucket.{Db, Stored, decodes, garbage, requests_bucket, delete_data, log}
use unify_em.Db.Bucket.Every.{
  Every, OnStored, set_data-Every, get_data-Every, delete_data-Every, for_each-Every,
}
use unify_em.Db.Requests.{
  set_agent_request, get_agent_request, own_request, get_agent_requests, delete_own,
  delete_agent_requests, is_open, cancel_agent_request, cancel_own, cancel_agent_requests,
  prune_request, prune_agent_requests, unix_before,
}

-- A record stands under its own request ID, and satisfies Q.
pub record Keyed (Q : AgentRequestRecord → Type 0) (key : String) (r : AgentRequestRecord)
    : Type 0 where
  pub id_is_key : r.request_id ≡ key
  pub holds : Q r

module _ ⦃B : Bolt⦄ where
  abbrev pub AllRequests : (AgentRequestRecord → Type 0) → Db → Type 0
  AllRequests Q = Every requests_bucket (Keyed Q)

-- What an invariant must allow for the operations that write a record, and that cancel one.
pub record AllowsTouch (Q : AgentRequestRecord → Type 0) : Type 0 where
  pub touch : (r : AgentRequestRecord) (t : ℕ) → Q r → Q (record r { last_updated = t })

pub record AllowsCancel (Q : AgentRequestRecord → Type 0) : Type 0 where
  pub touches : AllowsTouch Q
  pub cancel :
      (r : AgentRequestRecord) → is_open r.status ≡ true → Q r → Q (record r { status = cancelled })

module _ ⦃B : Bolt⦄ (Q : AgentRequestRecord → Type 0) (allows : AllowsTouch Q) where
  pub set_agent_request-Keeps :
      (now : ℕ) (r : AgentRequestRecord)
      → Q r
      → Ensures Db (Unit {0}) (AllRequests Q) Always (set_agent_request now r)
  unfolding set_agent_request
  set_agent_request-Keeps now r q =
      Ensures-if (r.agent_id == "") _ _ (λ _. Ensures-raise (fault agent_id_required))
        λ _.
          Ensures-if (r.request_id == "") _ _ (λ _. Ensures-raise (fault request_id_required))
            λ _. Ensures-wrapping _ (
              set_data-Every requests_bucket (Keyed Q) r.request_id
                (record r { last_updated = now })
                (record { id_is_key = refl; holds = allows.touch r now q }))

  pub get_agent_request-Keeps :
      (key : String)
      → Ensures Db AgentRequestRecord (AllRequests Q) (Keyed Q key) (get_agent_request key)
  unfolding get_agent_request
  get_agent_request-Keeps key = get_data-Every requests_bucket (Keyed Q) key

  pub delete-Keeps :
      (key : String)
      → Ensures Db (Unit {0}) (AllRequests Q) Always (delete_data requests_bucket key)
  delete-Keeps key = delete_data-Every requests_bucket (Keyed Q) key

  pub log-Keeps : Ensures Db (Unit {0}) (AllRequests Q) Always log
  unfolding log
  log-Keeps = record {
    at = λ d h. elim (Bool-cases d.has_logger) [ inl e ↦ rw e (h, tt) | inr e ↦ rw e (h, tt) ];
  }

  All-append-one :
      (P : AgentRequestRecord → Type 0) (xs : List AgentRequestRecord) (x : AgentRequestRecord)
      → All P xs
      → P x
      → All P (xs ++ x ∷ [])
  All-append-one P [] x h p = (p, tt)
  All-append-one P (y ∷ xs) x h p = (h.0, All-append-one P xs x h.1 p)

  own-Keeps :
      (id key : String) (v : Stored AgentRequestRecord) (acc : List AgentRequestRecord)
      → OnStored (Keyed Q) key v
      → All Q acc
      → Ensures Db (List AgentRequestRecord) (AllRequests Q) (All Q) (own_request id key v acc)
  unfolding own_request
  own-Keeps id key (decodes r) acc h q = elim (Bool-cases (r.agent_id == id)) [
    | inl e ↦ rw e (Ensures-pure _ (All-append-one Q acc r q h.holds))
    | inr e ↦ rw e (Ensures-pure _ q)
  ]
  own-Keeps id key garbage acc h q =
      Ensures-bind _ _ (Ensures-ignore _ (delete-Keeps key))
        (λ _ _. Ensures-raise (wrap (fault bad_record)))

  pub get_agent_requests-Keeps :
      (id : String)
      → Ensures Db (List AgentRequestRecord) (AllRequests Q) (All Q) (get_agent_requests id)
  unfolding get_agent_requests
  get_agent_requests-Keeps id =
      Ensures-wrapping _
        (for_each-Every requests_bucket (Keyed Q) (All Q) (own_request id) (own-Keeps id) [] tt)

  delete_own-Keeps :
      (id key : String) (v : Stored AgentRequestRecord) (acc : Unit {0})
      → OnStored (Keyed Q) key v
      → Always acc
      → Ensures Db (Unit {0}) (AllRequests Q) Always (delete_own id key v acc)
  unfolding delete_own
  delete_own-Keeps id key (decodes r) acc h _ =
      Ensures-if (r.agent_id == id) _ _ (λ _. Ensures-wrapping _ (delete-Keeps key))
        (λ _. Ensures-pure tt tt)
  delete_own-Keeps id key garbage acc h _ = Ensures-raise (wrap (fault bad_record))

  pub delete_all-Keeps :
      (id : String) → Ensures Db (Unit {0}) (AllRequests Q) Always (delete_agent_requests id)
  unfolding delete_agent_requests
  delete_all-Keeps id =
      for_each-Every requests_bucket (Keyed Q) Always (delete_own id) (delete_own-Keeps id) tt tt

  prune_own-Keeps :
      (now days : ℕ) (key : String) (v : Stored AgentRequestRecord) (acc : Unit {0})
      → OnStored (Keyed Q) key v
      → Always acc
      → Ensures Db (Unit {0}) (AllRequests Q) Always (prune_request now days key v acc)
  unfolding prune_request
  prune_own-Keeps now days key (decodes r) acc h _ =
      Ensures-if (unix_before r.last_updated now days) _ _
        (λ _. Ensures-bind _ _ (Ensures-attempt _ (delete-Keeps key)) (λ _ _. log-Keeps))
        (λ _. Ensures-pure tt tt)
  prune_own-Keeps now days key garbage acc h _ =
      Ensures-bind _ _ log-Keeps (λ _ _. Ensures-ignore _ (delete-Keeps key))

  pub prune-Keeps :
      (now days : ℕ) → Ensures Db (Unit {0}) (AllRequests Q) Always (prune_agent_requests now days)
  unfolding prune_agent_requests
  prune-Keeps now days =
      for_each-Every requests_bucket (Keyed Q) Always (prune_request now days)
        (prune_own-Keeps now days) tt tt

module _ ⦃B : Bolt⦄ (Q : AgentRequestRecord → Type 0) (allows : AllowsCancel Q) where
  pub cancel-Keeps :
      (now : ℕ) (key : String)
      → Ensures Db (Unit {0}) (AllRequests Q) Always (cancel_agent_request now key)
  unfolding cancel_agent_request
  cancel-Keeps now key =
      Ensures-bind _ _ (Ensures-wrapping _ (get_data-Every requests_bucket (Keyed Q) key)) λ r h.
        Ensures-if (is_open r.status) _ _
          (λ e.
            set_agent_request-Keeps Q allows.touches now (record r { status = cancelled })
              (allows.cancel r e h.holds))
          (λ _. Ensures-pure tt tt)

  cancel_own-Keeps :
      (now : ℕ) (id key : String) (v : Stored AgentRequestRecord) (acc : Unit {0})
      → OnStored (Keyed Q) key v
      → Always acc
      → Ensures Db (Unit {0}) (AllRequests Q) Always (cancel_own now id key v acc)
  unfolding cancel_own
  cancel_own-Keeps now id key (decodes r) acc h _ =
      Ensures-if (r.agent_id == id) _ _ (λ _. Ensures-wrapping _ (cancel-Keeps now key))
        (λ _. Ensures-pure tt tt)
  cancel_own-Keeps now id key garbage acc h _ = Ensures-raise (wrap (fault bad_record))

  pub cancel_all-Keeps :
      (now : ℕ) (id : String)
      → Ensures Db (Unit {0}) (AllRequests Q) Always (cancel_agent_requests now id)
  unfolding cancel_agent_requests
  cancel_all-Keeps now id =
      for_each-Every requests_bucket (Keyed Q) Always (cancel_own now id) (cancel_own-Keeps now id)
        tt tt
