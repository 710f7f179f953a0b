-- ===== src/Data/Sync/Keeps.antt =====
-- An invariant of the stored requests through the processing of a sync's responses.
use unify_em.Base.{
  ℕ, String, ◌≡◌, refl, eq_iff, Option, none, some, List, [], ◌∷◌, ◌&&◌, ◌==◌, fault, wrap, Result,
  value, error, agent_mismatch, decrypt_failed, no_credentials, no_private_key,
}
use unify_em.Base.Ensures.{
  Ensures, Always, Always-ok, Ensures-pure, Ensures-bind, Ensures-raise, Ensures-if, Ensures-lift,
  Ensures-wrapping, Ensures-ignore, Ensures-attempt,
}
use unify_em.Schema.{AgentMeta, AgentResponse, AgentRequestRecord, AgentTriggers}
use unify_em.Bolt.{Bolt}
use unify_em.Db.Bucket.{Db, requests_bucket}
use unify_em.Db.Requests.Keeps.{
  AllRequests, AllowsTouch, Keyed, set_agent_request-Keeps, get_agent_request-Keeps,
  delete_all-Keeps,
}
use unify_em.Db.Agents.{set_agent_meta, get_agent_meta}
use unify_em.Db.Agents.Frame.{
  set_agent_meta-Frame, get_agent_meta-Frame, update_agent_status-Frame, agent_sync-Frame,
  delete_agent_meta-Frame,
}
use unify_em.Db.Events.Frame.{add_event-Frame, delete_events-Frame}
use unify_em.Data.Config.{ServerConfig}
use unify_em.Data.Sync.{
  SyncData, answered, agent_status, status_of, queue_response, answer, store_credentials,
  process_service_credentials, process_agent_response, process_all, store_recovery, keep_recovery,
  sync, agent_delete,
}

-- A response of an agent may change a request of that agent only in ways that the invariant allows.
pub record AllowsAnswer (Q : AgentRequestRecord → Type 0) (id : String) : Type 0 where
  pub answer :
      (r : AgentRequestRecord) (resp : AgentResponse) → r.agent_id ≡ id → Q r → Q (answered r resp)

module _ ⦃B : Bolt⦄ (Q : AgentRequestRecord → Type 0) where
  pub meta_Frame :
      (meta : AgentMeta) → Ensures Db (Unit {0}) (AllRequests Q) Always (set_agent_meta meta)
  meta_Frame = set_agent_meta-Frame requests_bucket (Keyed Q) (λ b d. refl)

  read_Frame : (id : String) → Ensures Db AgentMeta (AllRequests Q) Always (get_agent_meta id)
  read_Frame = get_agent_meta-Frame requests_bucket (Keyed Q) (λ b d. refl)

module _ ⦃B : Bolt⦄ (Q : AgentRequestRecord → Type 0) (allows : AllowsTouch Q) (id : String)
    (answers : AllowsAnswer Q id) (now : ℕ) (fresh : String) where
  status-Keeps :
      (resp : AgentResponse)
      → Ensures Db (Unit {0}) (AllRequests Q) Always (agent_status now fresh id resp)
  unfolding agent_status
  status-Keeps resp = Ensures-bind _ _ (Ensures-lift (status_of resp.payload) (Always-ok _)) λ st _.
      Ensures-bind _ _
        (Ensures-wrapping _ (add_event-Frame requests_bucket (Keyed Q) (λ p d. refl) fresh _))
        λ _ _.
          Ensures-wrapping _
            (update_agent_status-Frame requests_bucket (Keyed Q) (λ b d. refl) now id _)

  answer-Keeps :
      (resp : AgentResponse) (r : AgentRequestRecord)
      → Q r
      → Ensures Db (Unit {0}) (AllRequests Q) Always (answer now fresh id resp r)
  unfolding answer
  answer-Keeps resp r q =
      Ensures-if (r.agent_id == id) _ _
        (λ own.
          Ensures-bind _ _
            (Ensures-wrapping _ (
              set_agent_request-Keeps Q allows now (answered r resp)
                (answers.answer r resp ((eq_iff r.agent_id id).0 own) q)))
            λ _ _.
              Ensures-bind _ _
                (Ensures-if (resp.cmd == "status") _ _ (λ _. status-Keeps resp)
                  (λ _. Ensures-pure tt tt))
                λ _ _. Ensures-lift (queue_response resp) (Always-ok _))
        (λ _. Ensures-raise (fault agent_mismatch))

  module _ (decrypt : String → String → Option String) (conf : ServerConfig) where
    store-Keeps :
        (o : Option String)
        → Ensures Db
            (Unit {0})
            (AllRequests Q)
            Always
            (store_credentials now fresh decrypt conf id o)
    unfolding store_credentials
    store-Keeps none = Ensures-raise (wrap (fault decrypt_failed))
    store-Keeps (some plain) =
        Ensures-bind _ _ (Ensures-wrapping _ (read_Frame Q id))
          (λ meta _. Ensures-wrapping _ (meta_Frame Q _))

    credentials-Keeps :
        (resp : AgentResponse)
        → Ensures Db
            (Unit {0})
            (AllRequests Q)
            Always
            (process_service_credentials now fresh decrypt conf id resp)
    unfolding process_service_credentials
    credentials-Keeps resp =
        Ensures-if (resp.service_credentials == "") _ _ (λ _. Ensures-raise (fault no_credentials))
          λ _.
            Ensures-if (conf.ec_private_enc == "") _ _ (λ _. Ensures-raise (fault no_private_key))
              λ _. store-Keeps (decrypt resp.service_credentials conf.ec_private_enc)

    pub response-Keeps :
        (resp : AgentResponse)
        → Ensures Db
            (Unit {0})
            (AllRequests Q)
            Always
            (process_agent_response now fresh decrypt conf id resp)
    unfolding process_agent_response
    response-Keeps resp =
        Ensures-if (resp.request_id == "status") _ _
          (λ _.
            Ensures-bind _ _ (status-Keeps resp)
              (λ _ _. Ensures-lift (queue_response resp) (Always-ok _)))
          λ _.
            Ensures-if (resp.request_id == "none" && resp.cmd == "refresh_service_account") _ _
              (λ _.
                Ensures-bind _ _ (credentials-Keeps resp)
                  (λ _ _. Ensures-lift (queue_response resp) (Always-ok _)))
              λ _.
                Ensures-bind _ _
                  (Ensures-wrapping _ (get_agent_request-Keeps Q allows resp.request_id))
                  (λ r h. answer-Keeps resp r h.holds)

    all-Keeps :
        (resps : List AgentResponse)
        → Ensures Db (Unit {0}) (AllRequests Q) Always (process_all now fresh decrypt conf id resps)
    unfolding process_all
    all-Keeps [] = Ensures-pure tt tt
    all-Keeps (resp ∷ rest) =
        Ensures-bind _ _ (Ensures-ignore _ (response-Keeps resp)) (λ _ _. all-Keeps rest)

    recovery-Keeps :
        (info : String) (r : Result AgentMeta)
        → Ensures Db
            (Unit {0})
            (AllRequests Q)
            Always
            (store_recovery now fresh decrypt conf info r)
    unfolding store_recovery
    recovery-Keeps info (error e) = Ensures-pure tt tt
    recovery-Keeps info (value meta) = Ensures-ignore _ (meta_Frame Q _)

    keep-Keeps :
        (s : SyncData)
        → Ensures Db (Unit {0}) (AllRequests Q) Always (keep_recovery now fresh decrypt conf s)
    unfolding keep_recovery
    keep-Keeps s =
        Ensures-if (s.recovery_info == "") _ _ (λ _. Ensures-pure tt tt)
          λ _.
            Ensures-bind _ _ (Ensures-attempt _ (read_Frame Q s.agent_id))
              (λ r _. recovery-Keeps s.recovery_info r)

module _ ⦃B : Bolt⦄ (Q : AgentRequestRecord → Type 0) (allows : AllowsTouch Q) where
  pub sync-Keeps :
      (now : ℕ) (fresh : String) (decrypt : String → String → Option String) (conf : ServerConfig)
      (s : SyncData)
      → AllowsAnswer Q s.agent_id
      → Ensures Db AgentTriggers (AllRequests Q) Always (sync now fresh decrypt conf s)
  unfolding sync
  sync-Keeps now fresh decrypt conf s answers =
      Ensures-bind _ _
        (agent_sync-Frame requests_bucket (Keyed Q) (λ b d. refl) now s.agent_id s.remote_ip
          s.version s.build)
        λ t _.
          Ensures-bind _ _
            (all-Keeps Q allows s.agent_id answers now fresh decrypt conf s.responses)
            λ _ _.
              Ensures-bind _ _ (keep-Keeps Q allows s.agent_id answers now fresh decrypt conf s)
                (λ _ _. Ensures-pure t.0 tt)

  pub agent_delete-Keeps :
      (id : String) → Ensures Db (Unit {0}) (AllRequests Q) Always (agent_delete id)
  unfolding agent_delete
  agent_delete-Keeps id = Ensures-bind _ _ (delete_all-Keeps Q allows id) λ _ _.
      Ensures-bind _ _
        (Ensures-ignore _ (delete_events-Frame requests_bucket (Keyed Q) (λ p d. refl) id))
        λ _ _. delete_agent_meta-Frame requests_bucket (Keyed Q) (λ b d. refl) id
