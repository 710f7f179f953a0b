-- ===== src/Api/Agents/Tags.antt =====
-- The sets of names that the handlers of agent.go work out.
use unify_em.Base.{
  String, ◌≡◌, refl, ap, ◌∙◌, Bool, true, false, not, ◌&&◌, ◌||◌, List, [], ◌∷◌, ◌++◌, ◌==◌, is_set,
  contains, Bool-cases, inl, inr, eq_iff, arith,
}
use unify_em.Api.Agents.{add_key, add_keys, add_requested, without}

contains-append :
    (s : String) (xs ys : List String) → contains s (xs ++ ys) ≡ (contains s xs || contains s ys)
contains-append s [] ys = refl
contains-append s (x ∷ xs) ys = ground (arith, contains-append s xs ys)

contains-add_key :
    (s t : String) (set : List String) → contains s (add_key set t) ≡ (contains s set || (t == s))
contains-add_key s t set = elim (Bool-cases (contains t set)) [
  | inl old ↦ rw old (elim (Bool-cases (t == s)) [
    | inl same ↦ rw (← (eq_iff t s).0 same, old) refl
    | inr apart ↦ rw apart (ground arith)
  ])
  | inr new ↦ rw new (ground (arith, contains-append s set (t ∷ [])))
]

or_assoc : (a b c : Bool) → ((a || b) || c) ≡ (a || (b || c))
or_assoc true b c = refl
or_assoc false b c = refl

contains-add_keys :
    (s : String) (set ts : List String)
    → contains s (add_keys set ts) ≡ (contains s set || contains s ts)
contains-add_keys s set [] = ground arith
contains-add_keys s set (t ∷ ts) =
    contains-add_keys s (add_key set t) ts
    ∙ ap (λ b. b || contains s ts) (contains-add_key s t set)
    ∙ or_assoc (contains s set) (t == s) (contains s ts)

-- After the requested keys are added, a name is in the set if it was, or if it was requested and is
-- not empty.
pub contains-add_requested :
    (s : String) (set ts : List String)
    → contains s (add_requested set ts) ≡ (contains s set || (is_set s && contains s ts))
contains-add_requested s set [] = ground arith
contains-add_requested s set (t ∷ ts) = elim (Bool-cases (is_set t)) [
  | inl given ↦ rw given (
      contains-add_requested s (add_key set t) ts
      ∙ ap (λ b. b || (is_set s && contains s ts)) (contains-add_key s t set)
      ∙ given_lem given)
  | inr empty ↦ rw empty (contains-add_requested s set ts ∙ empty_lem empty)
]
  where
    given_lem :
        is_set t ≡ true
        → ((contains s set || (t == s)) || (is_set s && contains s ts))
          ≡ (contains s set || (is_set s && ((t == s) || contains s ts)))
    given_lem h = ground (arith, eq_iff t s, eq_iff t "", eq_iff s "")

    empty_lem :
        is_set t ≡ false
        → (contains s set || (is_set s && contains s ts))
          ≡ (contains s set || (is_set s && ((t == s) || contains s ts)))
    empty_lem h = ground (arith, eq_iff t s, eq_iff t "", eq_iff s "")

pub contains-added :
    (s : String) (old ts : List String)
    → contains s (add_requested (add_keys [] old) ts)
      ≡ (contains s old || (is_set s && contains s ts))
contains-added s old ts =
    contains-add_requested s (add_keys [] old) ts
    ∙ ap (λ b. b || (is_set s && contains s ts)) (contains-add_keys s [] old)

pub contains-without :
    (name : String → String) (s : String) (removed ts : List String)
    → contains s (without name removed ts) ≡ (contains s ts && not (contains (name s) removed))
contains-without name s removed [] = refl
contains-without name s removed (t ∷ ts) = elim (Bool-cases (t == s)) [
  | inl same ↦
      let is_name : t ≡ s = (eq_iff t s).0 same in
      ground (arith, ap name is_name, contains-without name s removed ts)
  | inr apart ↦ ground (arith, contains-without name s removed ts)
]
