-- ===== src/Data/Dispatch/Spec/Counted.antt =====
-- Each request that is sent is counted in its record.
use mathlib.Core.List.{Memᴰ}
use mathlib.Core.Path.{subst}
use unify_em.Base.{
  ℕ, ◌+◌, String, ◌≡◌, refl, sym, ap, ◌∙◌, Bool, true, false, not, Option, none, some, some_inj,
  List, [], ◌∷◌, ◌==◌, Bool-cases, Option-cases, inl, inr, All, resume, ok, ◌&&◌,
}
use unify_em.Base.Inversion.{ok_inj, resume-ok}
use unify_em.Schema.{AgentRequest, AgentRequestRecord}
use unify_em.Bolt.{Bolt}
use unify_em.Commands.Validate.{validate}
use unify_em.Db.Bucket.{Db, Stored, decodes, requests_bucket}
use unify_em.Db.Bucket.Laws.{stored_at, found}
use unify_em.Db.Requests.Reads.{readable, owned, get_agent_requests_lem}
use unify_em.Data.Config.{ServerConfig}
use unify_em.Data.Dispatch.{
  Files, selected, sent, with_hash, is_new, send_checked, send, send_all, agent_requests,
}
use unify_em.Data.Dispatch.Spec.{offered, choose, send_lem, agent_requests_lem}
use unify_em.Data.Dispatch.Spec.Sources.{
  DistinctIds, OwnKeys, chosen_from, owned_from, owned-DistinctIds, readable-DistinctIds, read_from,
  entries_own,
}
use unify_em.Data.Dispatch.Spec.Writing.{sent_not_new, Writes, set_here, valid_state, rest_apart}

module _ ⦃B : Bolt⦄ where
  module _ (fs : Files) (conf : ServerConfig) (now : ℕ) (mark_sent : Bool) where
    -- The record that stands under the key has been counted once more, and is no longer new.
    pub record Counts (r : AgentRequestRecord) (o : Option (Stored AgentRequestRecord))
        : Type 0 where
      pub after : AgentRequestRecord
      pub is_stored : o ≡ some (decodes after)
      pub one_more : after.send_count ≡ r.send_count + 1
      pub not_new : is_new after.status ≡ false

    send_Counts :
        (r : AgentRequestRecord) (q : AgentRequest) (acc : List AgentRequest) (d : Db)
        → offered fs conf now r ≡ some q
        → (r.agent_id == "") ≡ false
        → (r.request_id == "") ≡ false
        → Writes r.request_id
        → Counts r (stored_at requests_bucket (send fs conf now mark_sent r acc d).1 r.request_id)
    unfolding send send_checked
    send_Counts r q acc d offers a k writes = elim (Bool-cases (selected conf now r)) [
      | inr e ↦ cc (let g : none ≡ some q = rw e at offers in g)
      | inl e ↦ elim (Option-cases (validate r.request r.parameters)) [
        | inr (why, bad) ↦ cc (let g : none ≡ some q = rw (e, bad) at offers in g)
        | inl good ↦ elim (Option-cases (with_hash fs r)) [
          | inl unusable ↦ cc (let g : none ≡ some q = rw (e, good, unusable) at offers in g)
          | inr (params, usable) ↦
              rw (e, good, usable)
                (record {
                  after = record (sent mark_sent r params) { last_updated = now };
                  is_stored =
                      ap (λ t. stored_at requests_bucket t r.request_id)
                        (valid_state fs conf now mark_sent r params acc d)
                      ∙ set_here now (sent mark_sent r params) d a k writes;
                  one_more = refl;
                  not_new = sent_not_new (mark_sent && not r.ack_required);
                })
        ]
      ]
    ]

    first_Counts :
        (rs : List AgentRequestRecord) (r : AgentRequestRecord) (q : AgentRequest)
        (acc : List AgentRequest) (d : Db)
        → All (λ x. (x.request_id == r.request_id) ≡ false) rs
        → offered fs conf now r ≡ some q
        → (r.agent_id == "") ≡ false
        → (r.request_id == "") ≡ false
        → Writes r.request_id
        → Counts r (
            stored_at requests_bucket
              (send_all fs conf now mark_sent (r ∷ rs) acc d).1
              r.request_id)
    unfolding send_all
    first_Counts rs r q acc d apart offers a k writes =
        subst (λ o. Counts r o)
          (sym (
            ap (λ p. stored_at requests_bucket p.1 r.request_id)
              (resume-ok _ (send fs conf now mark_sent r acc d)
                (send_lem fs conf now mark_sent r acc d))
            ∙ rest_apart fs conf now mark_sent rs _ r.request_id _ apart))
          (send_Counts r q acc d offers a k writes)

    requests-Counts :
        (rs : List AgentRequestRecord) (r : AgentRequestRecord) (q : AgentRequest)
        (acc : List AgentRequest) (d : Db)
        → DistinctIds rs
        → Memᴰ r rs
        → offered fs conf now r ≡ some q
        → (r.agent_id == "") ≡ false
        → (r.request_id == "") ≡ false
        → Writes r.request_id
        → Counts r
            (stored_at requests_bucket (send_all fs conf now mark_sent rs acc d).1 r.request_id)
    unfolding send_all
    requests-Counts [] r q acc d distinct m offers a k writes = elim m [ ]
    requests-Counts (x ∷ rs) r q acc d distinct (Memᴰ.head same) offers a k writes =
        subst
          (λ y. Counts r (
            stored_at requests_bucket (send_all fs conf now mark_sent (y ∷ rs) acc d).1
              r.request_id))
          same
          (first_Counts rs r q acc d
            (subst (λ y. All (λ z. (z.request_id == y.request_id) ≡ false) rs) (sym same)
              distinct.0)
            offers a k writes)
    requests-Counts (x ∷ rs) r q acc d distinct (Memᴰ.tail later) offers a k writes =
        subst (λ o. Counts r o)
          (sym (
            ap (λ p. stored_at requests_bucket p.1 r.request_id)
              (resume-ok _ (send fs conf now mark_sent x acc d)
                (send_lem fs conf now mark_sent x acc d))))
          (requests-Counts rs r q _ _ distinct.1 later offers a k writes)

    -- What is sent of a record carries its ID.
    offered_id :
        (r : AgentRequestRecord) (q : AgentRequest)
        → offered fs conf now r ≡ some q
        → (q.request_id ≡ r.request_id) × (selected conf now r ≡ true)
    offered_id r q offers = elim (Bool-cases (selected conf now r)) [
      | inr e ↦ cc (let g : none ≡ some q = rw e at offers in g)
      | inl e ↦ elim (Option-cases (validate r.request r.parameters)) [
        | inr (why, bad) ↦ cc (let g : none ≡ some q = rw (e, bad) at offers in g)
        | inl good ↦ elim (Option-cases (with_hash fs r)) [
          | inl unusable ↦ cc (let g : none ≡ some q = rw (e, good, unusable) at offers in g)
          | inr (params, usable) ↦
              (sym (ap (λ y. y.request_id) (some_inj (rw (e, good, usable) at offers))), e)
        ]
      ]
    ]

    -- The stored record from which a request was made that the dispatch sends: it is the agent's own
    -- and was selected, and the dispatch has counted it.
    pub record IsCounted (id : String) (d : Db) (q : AgentRequest) : Type 0 where
      pub before : AgentRequestRecord
      pub was_stored : stored_at requests_bucket d q.request_id ≡ some (decodes before)
      pub own : before.agent_id ≡ id
      pub is_selected : selected conf now before ≡ true
      pub counts :
          Counts before
            (stored_at requests_bucket (agent_requests fs conf now mark_sent id d).1 q.request_id)

    -- Where the bucket of requests is there, every stored request can be decoded and stands under its
    -- own ID, and the writes under the ID do not fail, each request that is sent has been counted.
    pub sent-IsCounted :
        (id : String) (d : Db) (b : B.Bucket (Stored AgentRequestRecord))
        (rs : List AgentRequestRecord) (q : AgentRequest) (requests : List AgentRequest)
        → d.requests ≡ some b
        → readable (B.entries b) ≡ some rs
        → ((k : String) (v : AgentRequestRecord)
            → stored_at requests_bucket d k ≡ some (decodes v)
            → v.request_id ≡ k)
        → (id == "") ≡ false
        → (q.request_id == "") ≡ false
        → Writes q.request_id
        → (agent_requests fs conf now mark_sent id d).0 ≡ ok requests
        → Memᴰ q requests
        → IsCounted id d q
    unfolding agent_requests
    sent-IsCounted id d b rs q requests there all keyed named k writes replies m =
        let sent_are : choose (offered fs conf now) (owned id rs) ≡ requests =
          ok_inj (sym (agent_requests_lem fs conf now mark_sent id d b rs there all) ∙ replies) in
        let (r, mine, offers) =
          chosen_from (offered fs conf now) q (owned id rs) (subst (Memᴰ q) (sym sent_are) m) in
        let (inside, own) = owned_from id r rs mine in
        let (same, chosen) = offered_id r q offers in
        let keys : OwnKeys (B.entries b) =
          entries_own (B.entries b) (B.entries_distinct _ b)
            (λ j v e. keyed j v (ap (λ o. found o j) there ∙ sym (B.lookup-entries _ b j) ∙ e)) in
        record {
          before = r;
          was_stored =
              ap (stored_at requests_bucket d) same
              ∙ ap (λ o. found o r.request_id) there
              ∙ sym (B.lookup-entries _ b r.request_id)
              ∙ read_from (B.entries b) rs r (B.entries_distinct _ b) keys all inside;
          own = own;
          is_selected = chosen;
          counts =
              subst
                (λ p. Counts r (
                  stored_at requests_bucket (resume (λ l. send_all fs conf now mark_sent l []) p).1
                    q.request_id))
                (sym (get_agent_requests_lem id d b rs there all))
                (subst
                  (λ i. Counts r (
                    stored_at requests_bucket (send_all fs conf now mark_sent (owned id rs) [] d).1
                      i))
                  (sym same)
                  (requests-Counts (owned id rs) r q [] d
                    (owned-DistinctIds id rs
                      (readable-DistinctIds (B.entries b) rs (B.entries_distinct _ b) keys all))
                    mine offers (ap (λ i. i == "") own ∙ named) (ap (λ i. i == "") (sym same) ∙ k)
                    (subst Writes same writes)));
        }
