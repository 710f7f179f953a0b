-- ===== src/Data/Dispatch/Added.antt =====
-- What AddAgentRequest queues.
use mathlib.Core.Path.{subst}
use unify_em.Base.{
  ℕ, String, ◌≡◌, refl, sym, Option, none, some, ok, ◌==◌, if◌then◌else◌, wrapped, Exec, ◌>>◌, pure,
  wrapping,
}
use unify_em.Base.Inversion.{ok_inj, resume-eq-ok, resume-ok, wrapped-eq-ok}
use unify_em.Schema.{AgentRequest}
use unify_em.Bolt.{Bolt}
use unify_em.Db.Bucket.{Db, decodes, requests_bucket, check_data}
use unify_em.Db.Bucket.Laws.{stored_at}
use unify_em.Db.Requests.{set_agent_request}
use unify_em.Db.Requests.Writes.{stored_at-set_agent_request}
use unify_em.Db.Agents.{agent_exists}
use unify_em.Data.Dispatch.{
  request_agent_id, new_request_id, new_record, store_request, add_agent_request,
}

module _ ⦃B : Bolt⦄ (now : ℕ) (fresh : String) (r : AgentRequest) where
  abbrev Queued : String → String → Db → Db → Type 0
  Queued agent id d d' =
      (j : String)
      → stored_at requests_bucket d' j ≡ (
          if id == j
          then some (decodes (record (new_record now agent id r) { last_updated = now }))
          else stored_at requests_bucket d j)

  exists_keeps : (agent : String) (d : Db) → (agent_exists agent d).1 ≡ d
  unfolding agent_exists check_data
  exists_keeps agent d = refl

  stored :
      (o : Option String) (d : Db) (id : String)
      → (store_request now fresh r o d).0 ≡ ok id
      → (agent : String) × (o ≡ some agent)
        × ((agent_exists agent d).0 ≡ ok tt)
        × (id ≡ new_request_id fresh r)
        × Queued agent (new_request_id fresh r) d (store_request now fresh r o d).1
  unfolding store_request
  stored none d id h = cc
  stored (some agent) d id h =
      let q = new_record now agent (new_request_id fresh r) r in
      let rest : Unit {0} → Exec Db String =
        λ _. wrapping (set_agent_request now q) >> pure (new_request_id fresh r) in
      let (u, e, h1) = resume-eq-ok rest (agent_exists agent d) h in
      let s = (agent_exists agent d).1 in
      let w = set_agent_request now q s in
      let last : Unit {0} → Exec Db String = λ _. pure (new_request_id fresh r) in
      let (v, e', h2) = resume-eq-ok last (wrapped w.0, w.1) h1 in
      let done : w.0 ≡ ok tt = wrapped-eq-ok w.0 e' in
      (
        agent,
        refl,
        e,
        sym (ok_inj h2),
        rw (resume-ok rest (agent_exists agent d) e, resume-ok last (wrapped w.0, w.1) e')
            (subst (λ x. Queued agent (new_request_id fresh r) x w.1) (exists_keeps agent d)
              (λ j. stored_at-set_agent_request now q s j done)),
      )

  pub add_agent_request_lem :
      (d : Db) (id : String)
      → (add_agent_request now fresh r d).0 ≡ ok id
      → (agent : String) × (request_agent_id r ≡ some agent)
        × ((agent_exists agent d).0 ≡ ok tt)
        × (id ≡ new_request_id fresh r)
        × ((j : String)
            → stored_at requests_bucket (add_agent_request now fresh r d).1 j ≡ (
                if new_request_id fresh r == j
                then some (
                    decodes (record (new_record now agent (new_request_id fresh r) r) {
                      last_updated = now;
                    }))
                else stored_at requests_bucket d j))
  unfolding add_agent_request
  add_agent_request_lem d id h = stored (request_agent_id r) d id h
