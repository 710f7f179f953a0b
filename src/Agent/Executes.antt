-- ===== src/Agent/Executes.antt =====
-- The agent has a handler for every command that Validate accepts.
use mathlib.Core.Path.{subst}
use unify_em.Base.{
  String, ◌≡◌, refl, Bool, true, none, some, List, [], ◌∷◌, contains, Dict, lookup, All, All-map,
  Outcome, ok, err, panic, Bool-cases, inl, inr, ◌==◌, eq_iff, ℕ, arith,
}
use unify_em.Base.Ensures.{OnOk}
use unify_em.Schema.{AgentRequest}
use unify_em.Bolt.{Bolt}
use unify_em.Commands.Table.{Command, cmds}
use unify_em.Commands.Validate.{validate}
use unify_em.Commands.Validate.Verdicts.{validate_iff}
use unify_em.Db.Bucket.{Db}
use unify_em.Data.Config.{ServerConfig}
use unify_em.Data.Dispatch.{Files, agent_requests}
use unify_em.Data.Dispatch.Valid.{IsValid, agent_requests-IsValid}
use unify_em.Agent.{CmdHandler, handled, finished, ended, dispatch, execute_request}

table_handled : All (λ p. contains p.0 handled ≡ true) cmds
unfolding cmds
table_handled = grind arith

key-All :
    (P : String → Type 0) (m : Dict Command) (k : String) (c : Command)
    → All (λ p. P p.0) m
    → lookup k m ≡ some c
    → P k
key-All P [] k c h e = cc
key-All P ((j, d) ∷ m) k c h e = elim (Bool-cases (j == k)) [
  | inl same ↦ subst P ((eq_iff j k).0 same) h.0
  | inr differ ↦ key-All P m k c h.1 (rw differ at e)
]

valid_handled :
    (cmd : String) (params : Dict String) → validate cmd params ≡ none → contains cmd handled ≡ true
valid_handled cmd params h =
    let (c, e, fits) = (validate_iff cmd params).0 h in
    key-All (λ k. contains k handled ≡ true) cmds cmd c table_handled e

module _ {S : Type 0} (handlers : String → CmdHandler S) where
  -- In every state the agent answers the request with what its own handler returns, and is left in the
  -- state that the handler leaves.
  abbrev pub Runs : AgentRequest → Type 0
  Runs r =
      (s : S)
      → execute_request handlers r s
        ≡ (finished ((handlers r.request).cmd r s).0, ((handlers r.request).cmd r s).1)

  valid-Runs : (r : AgentRequest) → IsValid r → Runs r
  unfolding execute_request dispatch ended
  valid-Runs r h s = rw (h, valid_handled r.request r.parameters h) refl

  on_ok : (o : Outcome (List AgentRequest)) → OnOk (All IsValid) o → OnOk (All Runs) o
  on_ok (ok rs) h = All-map IsValid Runs valid-Runs rs h
  on_ok (err e) h = tt
  on_ok panic h = tt

  -- Whatever was queued, every request that a dispatch sends is run by the agent's handler for its
  -- command, in whatever state the agent is: its own validation does not refuse the request, and it
  -- has a handler for it.
  pub dispatched_run :
      ⦃B : Bolt⦄ (fs : Files) (conf : ServerConfig) (now : ℕ) (mark_sent : Bool) (id : String)
      (d : Db)
      → OnOk (All Runs) (agent_requests fs conf now mark_sent id d).0
  dispatched_run fs conf now mark_sent id d =
      on_ok _ (agent_requests-IsValid fs conf now mark_sent id d)
