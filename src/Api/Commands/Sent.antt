-- ===== src/Api/Commands/Sent.antt =====
-- A command that was accepted reaches its agent.
use mathlib.Core.Path.{subst, subst₂}
use mathlib.Core.List.{Memᴰ}
use unify_em.Base.{
  ◌≢◌, false, erase, Option-cases, ℕ, String, ◌≡◌, ◌≢◌, refl, sym, ap, ◌∙◌, Bool, none, some, List,
  Bool-cases, inl, inr, if◌then◌else◌, ◌==◌, Dict, lookup, eq_refl, ok, some_inj,
}
use unify_em.Schema.{AgentRequest, AgentRequestRecord, new}
use unify_em.Schema.Values.{object, end}
use unify_em.Commands.Table.{is_ack_required}
use unify_em.Base.Inversion.{ok_inj}
use unify_em.Bolt.{Bolt}
use unify_em.Commands.Validate.{validate}
use unify_em.Commands.Validate.Hash.{validate-erase_request_id}
use unify_em.Db.Bucket.{Db, decodes, garbage, requests_bucket}
use unify_em.Db.Bucket.Laws.{stored_at}
use unify_em.Data.Config.{ServerConfig}
use unify_em.Data.Dispatch.{
  Files, selected, with_hash, agent_requests, request_parameters, new_request_id,
}
use unify_em.Data.Dispatch.Delivered.{due_request_sent}
use unify_em.Api.Http.{json, JResponse, cmd_queued, ok_with}
use unify_em.Api.Commands.{CmdRequest, or_blank, post_cmd}
use unify_em.Api.Commands.Queued.{Accepted, request_id_of, post_cmd-Accepted}

json_inj : {T : Type 0} {x y : T} → json x ≡ json y → x ≡ y
json_inj h = cc

module _ ⦃B : Bolt⦄ (now : ℕ) (fresh caller : String) where
  -- The ID of a command's request: the one among its parameters, else a new one.
  abbrev pub command_id : CmdRequest → String
  command_id c =
      let own = or_blank (lookup "request_id" c.parameters) in if own == "" then fresh else own

  -- The record that a command leaves for an agent, written out.
  abbrev pub accepted_record : CmdRequest → String → AgentRequestRecord
  accepted_record c agent = record {
    agent_id = agent;
    request_id = command_id c;
    request = c.cmd;
    requester = caller;
    ack_required = is_ack_required c.cmd;
    parameters = erase "request_id" c.parameters;
    status = new;
    time_created = now;
    last_updated = now;
    send_count = 0;
    response_details = "";
    response_data = object end;
    was_cancelled = false;
  }

  -- What the agent is sent of it.
  abbrev pub delivered : CmdRequest → Dict String → AgentRequest
  delivered c params = record {
    created = now;
    requester = caller;
    request = c.cmd;
    ack_required = false;
    request_id = command_id c;
    agent_id = "";
    parameters = params;
  }

  same_id : (c : CmdRequest) → request_id_of now fresh caller c ≡ command_id c
  unfolding new_request_id
  same_id c = elim (Option-cases (lookup "request_id" c.parameters)) [
    | inl none_given ↦ rw none_given refl
    | inr (own, given) ↦ rw given refl
  ]

  abbrev StoredFor : Db → Db → CmdRequest → String → Type 0
  StoredFor d s c agent =
      (j : String)
      → stored_at requests_bucket s j ≡ (
          if command_id c == j
          then some (decodes (accepted_record c agent))
          else stored_at requests_bucket d j)

  stored_for :
      {c : CmdRequest} (d : Db)
      (a : Accepted now fresh caller (json c) d (post_cmd now fresh caller (json c) d))
      → StoredFor d (post_cmd now fresh caller (json c) d).1 a.command a.agent
  unfolding request_parameters
  stored_for {c} d a j =
      subst
        (λ i. stored_at requests_bucket (post_cmd now fresh caller (json c) d).1 j ≡ (
          if i == j
          then some (decodes (record (accepted_record a.command a.agent) { request_id = i }))
          else stored_at requests_bucket d j))
        (same_id a.command) (a.is_stored j)

  module _ (fs : Files) (conf : ServerConfig) (later : ℕ) (mark_sent : Bool) where
    abbrev IsSent : CmdRequest → String → Dict String → Db → Type 0
    IsSent c agent params s =
        (requests : List AgentRequest) × ((agent_requests fs conf later mark_sent agent s).0
          ≡ ok requests)
        × Memᴰ (delivered c params) requests

    stored-IsSent :
        (c : CmdRequest) (agent : String) (params : Dict String) (d s : Db)
        → ((k : String) → stored_at requests_bucket d k ≢ some garbage)
        → validate c.cmd c.parameters ≡ none
        → StoredFor d s c agent
        → with_hash fs (accepted_record c agent) ≡ some params
        → IsSent c agent params s
    unfolding request_parameters selected
    stored-IsSent c agent params d s clean valid at hash =
        due_request_sent fs conf later mark_sent agent (command_id c) (accepted_record c agent)
          params s still_clean (at _ ∙ rw eq_refl refl) (eq_refl agent) refl
          (validate-erase_request_id c.cmd c.parameters valid) hash
      where
        still_clean : (k : String) → stored_at requests_bucket s k ≢ some garbage
        still_clean k bad = elim (Bool-cases (command_id c == k)) [
          | inl same ↦
              cc (let g : some (decodes _) ≡ some garbage = rw same at (sym (at k) ∙ bad) in g)
          | inr differ ↦ clean k (rw differ at (sym (at k) ∙ bad))
        ]

    -- A command that postCmd answers with 200, where all stored requests decode, is among the requests
    -- that the agent it names is sent by the dispatch that follows it with no other call between them,
    -- at whatever time: as a request of the calling administrator, made at the time of the call, under
    -- the ID among the command's parameters or else the fresh one, with the command's name and with the
    -- parameters that the hash step makes of its own, where that step finds a usable download URL. The
    -- reply carries that ID and the agent.
    pub post_cmd-IsSent :
        (c : CmdRequest) (agent : String) (params : Dict String) (d : Db) (r : JResponse)
        → ((k : String) → stored_at requests_bucket d k ≢ some garbage)
        → lookup "agent_id" c.parameters ≡ some agent
        → with_hash fs (accepted_record c agent) ≡ some params
        → (post_cmd now fresh caller (json c) d).0 ≡ ok r
        → r.http_code ≡ 200
        → (r ≡ ok_with (cmd_queued (command_id c) agent))
          × IsSent c agent params (post_cmd now fresh caller (json c) d).1
    post_cmd-IsSent c agent params d r clean names hash replies code =
        let a : Accepted now fresh caller (json c) d (post_cmd now fresh caller (json c) d) =
          post_cmd-Accepted now fresh caller (json c) d r replies code in
        let same : a.command ≡ c = json_inj (sym a.given) in
        let named : a.agent ≡ agent =
          some_inj (sym a.names_agent ∙ ap (λ x. lookup "agent_id" x.parameters) same ∙ names) in
        (
          ok_inj (sym replies ∙ a.replied)
              ∙ ap (λ i. ok_with (cmd_queued i a.agent)) (same_id a.command)
              ∙ ap (λ x. ok_with (cmd_queued (command_id x) a.agent)) same
              ∙ ap (λ x. ok_with (cmd_queued (command_id c) x)) named,
          stored-IsSent c agent params d _ clean
              (subst (λ x. validate x.cmd x.parameters ≡ none) same a.is_valid)
              (subst₂ (StoredFor d (post_cmd now fresh caller (json c) d).1) same named
                (stored_for d a))
              hash,
        )
