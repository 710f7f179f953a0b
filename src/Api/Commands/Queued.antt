-- ===== src/Api/Commands/Queued.antt =====
-- What a command that was accepted has queued.
use unify_em.Base.{
  ℕ, String, ◌≡◌, refl, sym, ap, ◌∙◌, none, some, if◌then◌else◌, ◌==◌, lookup, Outcome, ok, err,
  panic, Error, resume, pure, attempt, error, arith, Option-cases, inl, inr,
}
use unify_em.Base.Inversion.{ok_inj}
use unify_em.Bolt.{Bolt}
use unify_em.Commands.Validate.{validate}
use unify_em.Db.Bucket.{Db, decodes, requests_bucket}
use unify_em.Db.Bucket.Laws.{stored_at}
use unify_em.Db.Agents.{agent_exists}
use unify_em.Data.Dispatch.{add_agent_request, new_request_id, new_record, request_agent_id}
use unify_em.Data.Dispatch.Added.{add_agent_request_lem}
use unify_em.Api.Http.{HttpBody, unreadable, not_json, json, JResponse, cmd_queued, ok_with}
use unify_em.Api.Commands.{CmdRequest, requested, queued_as, queue_valid, post_cmd}

module _ ⦃B : Bolt⦄ (now : ℕ) (fresh caller : String) where
  abbrev pub request_id_of : CmdRequest → String
  request_id_of c = new_request_id fresh (requested caller c)

  -- The command that was accepted, and the record that it left.
  pub record Accepted (body : HttpBody CmdRequest) (d : Db) (p : Outcome JResponse × Db)
      : Type 0 where
    pub command : CmdRequest
    pub agent : String
    pub given : body ≡ json command
    pub is_valid : validate command.cmd command.parameters ≡ none
    pub names_agent : lookup "agent_id" command.parameters ≡ some agent
    pub agent_known : (agent_exists agent d).0 ≡ ok tt
    pub replied : p.0 ≡ ok (ok_with (cmd_queued (request_id_of command) agent))
    pub is_stored :
        (j : String)
        → stored_at requests_bucket p.1 j ≡ (
            if request_id_of command == j
            then some (
                decodes
                  (record (new_record now agent
                    (request_id_of command)
                    (requested caller command)) { last_updated = now }))
            else stored_at requests_bucket d j)

  not_ok : (e : Error) (c : CmdRequest) → (queued_as c (error e)).http_code ≡ 200 → ⊥
  unfolding queued_as
  not_ok e c h = ground arith

  queued :
      (c : CmdRequest) (d : Db) (p : Outcome String × Db)
      → add_agent_request now fresh (requested caller c) d ≡ p
      → validate c.cmd c.parameters ≡ none
      → (r : JResponse) → (resume (λ id. pure (queued_as c id)) (attempt (λ _. p) d)).0 ≡ ok r
      → r.http_code ≡ 200
      → Accepted (json c) d (resume (λ id. pure (queued_as c id)) (attempt (λ _. p) d))
  unfolding queued_as request_agent_id
  queued c d (ok id, s) e valid r h code =
      let (agent, named, known, same, at_key) =
        add_agent_request_lem now fresh (requested caller c) d id (ap (λ q. q.0) e) in
      record {
        command = c;
        agent = agent;
        given = refl;
        is_valid = valid;
        names_agent = named;
        agent_known = known;
        replied = rw (same, named) refl;
        is_stored = λ j. ap (λ q. stored_at requests_bucket q.1 j) (sym e) ∙ at_key j;
      }
  queued c d (err x, s) e valid r h code =
      absurd (not_ok x c (ap (λ q. q.http_code) (ok_inj h) ∙ code))
  queued c d (panic, s) e valid r h code = cc

  pub post_cmd-Accepted :
      (body : HttpBody CmdRequest) (d : Db) (r : JResponse)
      → (post_cmd now fresh caller body d).0 ≡ ok r
      → r.http_code ≡ 200
      → Accepted body d (post_cmd now fresh caller body d)
  unfolding post_cmd queue_valid
  post_cmd-Accepted unreadable d r h code = absurd (omega (arith, ap (λ q. q.http_code) (ok_inj h)))
  post_cmd-Accepted not_json d r h code = absurd (omega (arith, ap (λ q. q.http_code) (ok_inj h)))
  post_cmd-Accepted (json c) d r h code = elim (Option-cases (validate c.cmd c.parameters)) [
    | inl valid ↦ rw valid (queued c d _ refl valid r (rw valid at h) code)
    | inr (e, bad) ↦
        absurd
          (omega (arith, ap (λ q. q.http_code) (ok_inj (let g : ok _ ≡ ok r = rw bad at h in g))))
  ]
