-- ===== src/Config/Params/Admitted.antt =====
-- What Get returns after Set, and which values it can return.
use unify_em.Base.{
  String, ◌≡◌, ◌≢◌, refl, sym, ap, ◌∙◌, Bool, true, false, not, ◌&&◌, ◌||◌, Option, none, some, ◌⊎◌,
  inl, inr, if◌then◌else◌, ◌==◌, lookup, insert, lookup-insert, Bool-cases, Option-cases, eq_iff,
  eq_refl,
}
use unify_em.Base.Int.{
  ℤ, pos, ltb_ℤ, is_zero, ◌≤ℤ◌, int_text, atoi, atoi-int_text, IsInt64, ltb_ℤ-le, is_zero-pos,
}
use unify_em.Config.Params.{
  Element, Params, AnyValue, text, int, int64, other, any_text, is_outside, is_outside?,
  enforce_any, enforce, element_of, set, get, get_found,
}

-- The text if it is not empty and is no number outside the limits; else the default.
abbrev pub admitted : Element → String → String
admitted e t =
    if t == ""
    then e.default_value
    else if is_outside? e.min e.max (atoi t)
    then e.default_value
    else t

if_same : {A : Type 0} (b : Bool) (x : A) → (if b then x else x) ≡ x
if_same true x = refl
if_same false x = refl

atoi-empty : (t : String) → t == "" ≡ true → atoi t ≡ none
unfolding atoi
atoi-empty t h = ap atoi ((eq_iff t "").0 h)

pub enforce-admitted : (e : Element) → enforce e ≡ admitted e e.value
unfolding enforce
enforce-admitted e = elim (Bool-cases (e.value == "")) [
  | inr full ↦ rw full refl
  | inl empty ↦ elim (Bool-cases (e.default_value == "")) [
    | inr given ↦ rw (empty, given) refl
    | inl missing ↦
        rw (empty, missing, atoi-empty e.value empty)
          ((eq_iff e.value "").0 empty ∙ sym ((eq_iff e.default_value "").0 missing))
  ]
]

enforce-default : (e : Element) → admitted e e.default_value ≡ e.default_value
enforce-default e = elim (Bool-cases (e.default_value == "")) [
  | inl missing ↦ rw missing refl
  | inr given ↦ rw given (if_same (is_outside? e.min e.max (atoi e.default_value)) e.default_value)
]

int_text-ne-empty : (n : ℤ) → IsInt64 n → int_text n == "" ≡ false
int_text-ne-empty n h = elim (Bool-cases (int_text n == "")) [
  | inr full ↦ full
  | inl empty ↦ cc (atoi-int_text n h, atoi-empty (int_text n) empty)
]

-- A number is held by its own type.
abbrev pub IsWord : AnyValue → Type 0
IsWord (int n) = IsInt64 n
IsWord (int64 n) = IsInt64 n
IsWord _ = Unit

number_kept :
    (e : Element) (n : ℤ)
    → IsInt64 n
    → admitted e (if is_outside e.min e.max n then e.default_value else int_text n)
      ≡ admitted e (int_text n)
number_kept e n h = elim (Bool-cases (is_outside e.min e.max n)) [
  | inl out ↦ rw (out, int_text-ne-empty n h, atoi-int_text n h, out) (enforce-default e)
  | inr within ↦ rw within refl
]

any_kept :
    (e : Element) (v : AnyValue)
    → IsWord v
    → admitted e (enforce_any e.min e.max v e.default_value) ≡ admitted e (any_text v)
unfolding enforce_any
any_kept e (int n) h = number_kept e n h
any_kept e (int64 n) h = number_kept e n h
any_kept e (other s) h = refl
any_kept e (text s) h = elim (Bool-cases (s == "")) [
  | inl empty ↦ rw empty (enforce-default e)
  | inr full ↦ rw (full, full) refl
]

abbrev pub found : Option Element → String
found none = ""
found (some e) = admitted e e.value

pub get-found : (key : String) (p : Params) → (get key p).0 ≡ found (lookup key p)
unfolding get get_found
get-found key p = elim (Option-cases (lookup key p)) [
  | inl gone ↦ rw gone refl
  | inr (e, there) ↦ rw there (enforce-admitted e)
]

-- After Set of a value to a key, Get of that key returns the value's text if it is not empty and is no
-- number outside the key's limits, and else the key's default, whether the value was given as a number
-- or as its text; every other key reads as before.
pub get-set_value :
    (key j : String) (v : AnyValue) (p : Params)
    → IsWord v
    → (get j (set key v p)).0
      ≡ (if key == j then admitted (element_of (lookup key p)) (any_text v) else (get j p).0)
unfolding set
get-set_value key j v p h =
    get-found j (set key v p) ∙ ap found (lookup-insert key j _ p) ∙ (elim (Bool-cases (key == j)) [
      | inl same ↦ rw same (any_kept (element_of (lookup key p)) v h)
      | inr apart ↦ rw apart (sym (get-found j p))
    ])

-- A number is within each limit that is set; 0 is no limit.
abbrev pub Within : Element → Option ℤ → Type 0
Within e none = Unit
Within e (some n) = ((e.min ≡ pos 0) ⊎ (e.min ≤ℤ n)) × ((e.max ≡ pos 0) ⊎ (n ≤ℤ e.max))

abbrev pub InBounds : Element → String → Type 0
InBounds e t = Within e (atoi t)

neither : (a b : Bool) → (a || b) ≡ false → (a ≡ false) × (b ≡ false)
neither false b h = (refl, h)
neither true b h = cc

no_limit : (a b : Bool) → (not a && b) ≡ false → (a ≡ true) ⊎ (b ≡ false)
no_limit true b h = inl refl
no_limit false b h = inr h

kept_by : (limit a b : ℤ) → (not (is_zero limit) && ltb_ℤ a b) ≡ false → (limit ≡ pos 0) ⊎ (b ≤ℤ a)
kept_by limit a b h = elim (no_limit (is_zero limit) (ltb_ℤ a b) h) [
  | inl unset ↦ inl (is_zero-pos limit unset)
  | inr not_below ↦ inr (ltb_ℤ-le a b not_below)
]

inside : (e : Element) (o : Option ℤ) → is_outside? e.min e.max o ≡ false → Within e o
inside e none within = tt
inside e (some n) within =
    let (low, high) = neither _ _ within in (kept_by e.min n e.min low, kept_by e.max e.max n high)

module _ (e : Element) (t : String) where
  abbrev pub Settled : Type 0
  Settled = (t ≡ e.default_value) ⊎ ((t ≢ "") × InBounds e t)

admitted-Settled : (e : Element) (t : String) → Settled e (admitted e t)
admitted-Settled e t = elim (Bool-cases (t == "")) [
  | inl empty ↦ rw empty (inl refl)
  | inr full ↦ rw full (elim (Bool-cases (is_outside? e.min e.max (atoi t))) [
    | inl out ↦ rw out (inl refl)
    | inr within ↦
        rw within (inr ((λ same. cc (full, (eq_iff t "").1 same)), inside e (atoi t) within))
  ])
]

pub admitted-admitted : (e : Element) (t : String) → admitted e (admitted e t) ≡ admitted e t
admitted-admitted e t = elim (Bool-cases (t == "")) [
  | inl empty ↦ rw empty (enforce-default e)
  | inr full ↦ rw full (elim (Bool-cases (is_outside? e.min e.max (atoi t))) [
    | inl out ↦ rw out (enforce-default e)
    | inr within ↦ rw (within, full, within) refl
  ])
]

get-again :
    (key : String) (p : Params) (e : Element)
    → lookup key p ≡ some e
    → (get key (get_found key p (some e)).1).0 ≡ enforce e
unfolding get_found
get-again key p e there = elim (Bool-cases (enforce e == e.value)) [
  | inl same ↦ rw same (get-found key p ∙ ap found there ∙ sym (enforce-admitted e))
  | inr changed ↦ rw changed (
      get-found key (insert key (record e { value = enforce e }) p)
      ∙ ap found (lookup-insert key key _ p)
      ∙ rw (eq_refl key) (ap (admitted e) (enforce-admitted e))
      ∙ admitted-admitted e e.value
      ∙ sym (enforce-admitted e))
]

-- For a key that is there Get returns the key's default, or a text that is not empty and, if it is a
-- number, lies within each limit that is set; a second Get returns the same.
pub get_in_bounds :
    (key : String) (p : Params) (e : Element)
    → lookup key p ≡ some e
    → Settled e (get key p).0 × ((get key (get key p).1).0 ≡ (get key p).0)
unfolding get
get_in_bounds key p e there = (
  rw (there, get_found, enforce-admitted e) (admitted-Settled e e.value),
  rw there (get-again key p e there),
)
