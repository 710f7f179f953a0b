-- ===== src/Data/Dispatch/Valid.antt =====
-- An agent accepts every command that it is sent: it applies the same validation.
use mathlib.Core.Option
use mathlib.Core.Path.{subst}
use unify_em.Base.{
  ℕ, String, ◌≡◌, refl, Bool, Option, none, some, some_inj, List, [], ◌∷◌, Dict, lookup, All,
  Outcome, ok, err, panic, resume, Bool-cases, inl, inr, ◌==◌,
}
use unify_em.Schema.{AgentRequest, AgentRequestRecord}
use unify_em.Bolt.{Bolt}
use unify_em.Commands.Validate.{Invalid, validate}
use unify_em.Commands.Validate.Hash.{validate-insert_hash, validate-erase_hash}
use unify_em.Db.Bucket.{Db}
use unify_em.Db.Requests.{get_agent_requests}
use unify_em.Base.Ensures.{OnOk}
use unify_em.Data.Config.{ServerConfig}
use unify_em.Data.Dispatch.{
  Files, selected, to_agent, with_hash, upgrade_hash, hashed_download, download_hash, is_false,
  get_filename, send_all, get_hash_of_file, agent_requests,
}
use unify_em.Data.Dispatch.Spec.{offered, offered_valid, choose, push, send_all_lem}

module _ (fs : Files) (cmd : String) (params : Dict String)
    (valid : validate cmd params ≡ none) where
  upgrade_valid : (o : Option String) → validate cmd (upgrade_hash fs o params) ≡ none
  unfolding upgrade_hash
  upgrade_valid none = validate-insert_hash cmd params _ valid
  upgrade_valid (some h) = elim (Bool-cases (is_false h)) [
    | inl e ↦ rw e (validate-erase_hash cmd params valid)
    | inr e ↦ rw e (validate-insert_hash cmd params h valid)
  ]

  download_valid :
      (o : Option String) (ps : Dict String)
      → hashed_download fs params o ≡ some ps
      → validate cmd ps ≡ none
  unfolding hashed_download
  download_valid none ps e = cc
  download_valid (some file) ps e =
      subst (λ p. validate cmd p ≡ none) (some_inj e)
        (validate-insert_hash cmd params (get_hash_of_file fs file) valid)

  url_valid :
      (o : Option String) (ps : Dict String)
      → download_hash fs o params ≡ some ps
      → validate cmd ps ≡ none
  unfolding download_hash
  url_valid none ps e = cc
  url_valid (some url) ps e = download_valid (get_filename fs url) ps e

abbrev pub IsValid : AgentRequest → Type 0
IsValid a = validate a.request a.parameters ≡ none

module _ (fs : Files) where
  with_hash_valid :
      (r : AgentRequestRecord) (ps : Dict String)
      → validate r.request r.parameters ≡ none
      → with_hash fs r ≡ some ps
      → validate r.request ps ≡ none
  unfolding with_hash
  with_hash_valid r ps valid e = elim (Bool-cases (r.request == "download_execute")) [
    | inl d ↦ url_valid fs r.request r.parameters valid (lookup "url" r.parameters) ps (rw d at e)
    | inr d ↦ elim (Bool-cases (r.request == "upgrade")) [
      | inl u ↦
          subst (λ p. validate r.request p ≡ none) (some_inj (rw (d, u) at e))
            (upgrade_valid fs r.request r.parameters valid (lookup "hash" r.parameters))
      | inr u ↦ subst (λ p. validate r.request p ≡ none) (some_inj (rw (d, u) at e)) valid
    ]
  ]

  abbrev OnSome : Option AgentRequest → Type 0
  OnSome none = Unit
  OnSome (some a) = IsValid a

  made_valid :
      (r : AgentRequestRecord) (o : Option (Dict String))
      → ((ps : Dict String) → o ≡ some ps → validate r.request ps ≡ none)
      → OnSome (Option.map (to_agent r) o)
  made_valid r none h = tt
  made_valid r (some ps) h = h ps refl

  offered_valid_lem :
      (r : AgentRequestRecord) (o : Option Invalid)
      → validate r.request r.parameters ≡ o
      → OnSome (offered_valid fs r o)
  offered_valid_lem r none e = made_valid r (with_hash fs r) (λ ps w. with_hash_valid r ps e w)
  offered_valid_lem r (some why) e = tt

  module _ (conf : ServerConfig) (now : ℕ) where
    offered_lem : (r : AgentRequestRecord) → OnSome (offered fs conf now r)
    offered_lem r = elim (Bool-cases (selected conf now r)) [
      | inl e ↦ rw e (offered_valid_lem r (validate r.request r.parameters) refl)
      | inr e ↦ rw e tt
    ]

    push_lem :
        (o : Option AgentRequest) (xs : List AgentRequest)
        → OnSome o
        → All IsValid xs
        → All IsValid (push o xs)
    push_lem none xs h k = k
    push_lem (some a) xs h k = (h, k)

    chosen-IsValid : (rs : List AgentRequestRecord) → All IsValid (choose (offered fs conf now) rs)
    chosen-IsValid [] = tt
    chosen-IsValid (r ∷ rs) =
        push_lem (offered fs conf now r) (choose (offered fs conf now) rs) (offered_lem r)
          (chosen-IsValid rs)

    module _ ⦃B : Bolt⦄ (mark_sent : Bool) where
      rest-IsValid :
          (p : Outcome (List AgentRequestRecord) × Db)
          → OnOk (All IsValid) (resume (λ l. send_all fs conf now mark_sent l []) p).0
      rest-IsValid (ok rs, d) = rw (send_all_lem fs conf now mark_sent rs [] d) (chosen-IsValid rs)
      rest-IsValid (err e, d) = tt
      rest-IsValid (panic, d) = tt

      -- In every database, whatever commands and parameters were queued, each request that a dispatch
      -- sends passes the validation that the agent applies to what it receives, also with the hash
      -- that the server adds, replaces or deletes.
      pub agent_requests-IsValid :
          (id : String) (d : Db) → OnOk (All IsValid) (agent_requests fs conf now mark_sent id d).0
      unfolding agent_requests
      agent_requests-IsValid id d = rest-IsValid (get_agent_requests id d)
