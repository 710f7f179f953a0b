-- ===== src/Data/Sync/Isolation.antt =====
-- An agent can answer its own requests only.
use unify_em.Base.{ℕ, String, ◌≡◌, ◌≢◌, sym, ap, ◌∙◌, Option}
use unify_em.Schema.{AgentRequestRecord, AgentResponse}
use unify_em.Bolt.{Bolt}
use unify_em.Db.Bucket.{Db}
use unify_em.Db.Requests.Keeps.{AllRequests}
use unify_em.Data.Config.{ServerConfig}
use unify_em.Data.Sync.{SyncData, sync, answered}
use unify_em.Data.Sync.Keeps.{sync-Keeps}

-- A record with the request ID of `o` is `o`, but for the time of its last write.
abbrev pub StillIs : AgentRequestRecord → AgentRequestRecord → Type 0
StillIs o r = r.request_id ≡ o.request_id → r ≡ record o { last_updated = r.last_updated }

module _ (decrypt : String → String → Option String) (conf : ServerConfig) where
  still_touched :
      (o r : AgentRequestRecord) (t : ℕ) → StillIs o r → StillIs o (record r { last_updated = t })
  still_touched o r t q same =
      let touch : AgentRequestRecord → AgentRequestRecord = λ x. record x { last_updated = t } in
      ap touch (q same)

  foreign_answer :
      (o r : AgentRequestRecord) (resp : AgentResponse) (id : String)
      → o.agent_id ≢ id
      → r.agent_id ≡ id
      → StillIs o r
      → StillIs o (answered r resp)
  unfolding answered
  foreign_answer o r resp id other own q same =
      absurd (other (sym (ap (λ x. x.agent_id) (q same)) ∙ own))

  module _ ⦃B : Bolt⦄ (now : ℕ) (fresh : String) where
    -- Let every stored record stand under its own ID, and let the one under the ID of a request of
    -- another agent be that request. After the sync of an agent, whatever responses it brings, what
    -- is stored under that ID is still that request, but for the time of its last write: the
    -- status, parameters, response and count of tries are untouched.
    pub sync_isolated :
        (s : SyncData) (o : AgentRequestRecord) (d : Db)
        → o.agent_id ≢ s.agent_id
        → AllRequests (StillIs o) d
        → AllRequests (StillIs o) (sync now fresh decrypt conf s d).1
    sync_isolated s o d other h =
        ((sync-Keeps (StillIs o) (record { touch = still_touched o }) now fresh decrypt conf s
            (record { answer = λ r resp own. foreign_answer o r resp s.agent_id other own })).at
          d h).0
