-- ===== src/Commands/Validate/Hash.antt =====
-- Every command takes the parameter "hash" and requires it of nobody, so that adding or deleting it
-- keeps a valid command valid; deleting "request_id", which none requires, does too.
use mathlib.Core.Path.{subst}
use unify_em.Base.{
  String, ◌≡◌, true, false, none, some, some_inj, List, [], ◌∷◌, if◌then◌else◌, Dict, lookup,
  has_key, is_some, contains, All, Bool-cases, inl, inr, arith, ◌==◌, ◌⊎◌, eq_iff, insert, erase,
  lookup-insert, lookup-erase,
}
use unify_em.Commands.Table.{Command, cmds}
use unify_em.Commands.Validate.{takes, validate}
use unify_em.Commands.Validate.Verdicts.{Present, Taken, validate_iff}

record HashOptional (c : Command) : Type 0 where
  taken : takes c "hash" ≡ true
  not_required : contains "hash" c.required_args ≡ false

table_hash : All (λ p. HashOptional p.1) cmds
unfolding cmds
table_hash = grind arith

lookup-All :
    (P : Command → Type 0) (m : Dict Command) (k : String) (c : Command)
    → All (λ p. P p.1) m
    → lookup k m ≡ some c
    → P c
lookup-All P [] k c h e = cc
lookup-All P ((j, d) ∷ m) k c h e = elim (Bool-cases (j == k)) [
  | inl same ↦ subst P (some_inj (rw same at e)) h.0
  | inr differ ↦ lookup-All P m k c h.1 (rw differ at e)
]

present-insert :
    (a k v : String) (m : Dict String) → has_key a m ≡ true → has_key a (insert k v m) ≡ true
present-insert a k v m h = rw lookup-insert (at (Bool-cases (k == a)))
  where
    at : (k == a ≡ true) ⊎ (k == a ≡ false) → is_some (if k == a then some v else lookup a m) ≡ true
    at (inl e) = rw e
    at (inr e) = rw e h

present-erase :
    (a k : String) (m : Dict String)
    → k == a ≡ false
    → has_key a m ≡ true
    → has_key a (erase k m) ≡ true
present-erase a k m e h = rw (lookup-erase, e) h

All-Present-insert :
    (args : List String) (k v : String) (m : Dict String)
    → All (Present m) args
    → All (Present (insert k v m)) args
All-Present-insert [] k v m h = tt
All-Present-insert (a ∷ args) k v m h =
    (present-insert a k v m h.0, All-Present-insert args k v m h.1)

All-Present-erase :
    (args : List String) (k : String) (m : Dict String)
    → contains k args ≡ false
    → All (Present m) args
    → All (Present (erase k m)) args
All-Present-erase [] k m e h = tt
All-Present-erase (a ∷ args) k m e h = (
  present-erase a k m (ground (arith, eq_iff a k, eq_iff k a)) h.0,
  All-Present-erase args k m (ground arith) h.1,
)

All-Taken-insert :
    (c : Command) (k v : String) (m : Dict String)
    → takes c k ≡ true
    → All (Taken c) m
    → All (Taken c) (insert k v m)
All-Taken-insert c k v [] e h = (e, tt)
All-Taken-insert c k v ((j, w) ∷ m) e h = elim (Bool-cases (j == k)) [
  | inl same ↦ rw same (e, h.1)
  | inr differ ↦ rw differ (h.0, All-Taken-insert c k v m e h.1)
]

All-Taken-erase :
    (c : Command) (k : String) (m : Dict String) → All (Taken c) m → All (Taken c) (erase k m)
All-Taken-erase c k [] h = tt
All-Taken-erase c k ((j, w) ∷ m) h = elim (Bool-cases (j == k)) [
  | inl same ↦ rw same (All-Taken-erase c k m h.1)
  | inr differ ↦ rw differ (h.0, All-Taken-erase c k m h.1)
]

module _ (cmd : String) (params : Dict String) where
  pub validate-insert_hash :
      (h : String) → validate cmd params ≡ none → validate cmd (insert "hash" h params) ≡ none
  validate-insert_hash h valid =
      let (c, e, fits) = (validate_iff cmd params).0 valid in
      let optional : HashOptional c = lookup-All HashOptional cmds cmd c table_hash e in
      (validate_iff cmd (insert "hash" h params)).1 (
        c,
        e,
        record {
          all_present = All-Present-insert c.required_args "hash" h params fits.all_present;
          all_taken = All-Taken-insert c "hash" h params optional.taken fits.all_taken;
        },
      )

  pub validate-erase_hash : validate cmd params ≡ none → validate cmd (erase "hash" params) ≡ none
  validate-erase_hash valid =
      let (c, e, fits) = (validate_iff cmd params).0 valid in
      let optional : HashOptional c = lookup-All HashOptional cmds cmd c table_hash e in
      (validate_iff cmd (erase "hash" params)).1 (
        c,
        e,
        record {
          all_present =
              All-Present-erase c.required_args "hash" params optional.not_required
                fits.all_present;
          all_taken = All-Taken-erase c "hash" params fits.all_taken;
        },
      )

abbrev LeavesOut : String → Command → Type 0
LeavesOut k c = contains k c.required_args ≡ false

table-LeavesOut : All (λ p. LeavesOut "request_id" p.1) cmds
unfolding cmds
table-LeavesOut = grind arith

-- No command requires the ID that AddAgentRequest takes out of the parameters.
pub validate-erase_request_id :
    (cmd : String) (params : Dict String)
    → validate cmd params ≡ none
    → validate cmd (erase "request_id" params) ≡ none
validate-erase_request_id cmd params valid =
    let (c, e, fits) = (validate_iff cmd params).0 valid in
    (validate_iff cmd (erase "request_id" params)).1 (
      c,
      e,
      record {
        all_present =
            All-Present-erase c.required_args "request_id" params
              (lookup-All (LeavesOut "request_id") cmds cmd c table-LeavesOut e) fits.all_present;
        all_taken = All-Taken-erase c "request_id" params fits.all_taken;
      },
    )
