-- ===== src/Base/Decimal.antt =====
-- Decimal text: the `%d` of fmt and what reads it back.
use Prim.Native.Nat.{ℕ, zero, suc, ◌+◌, ◌*◌, ◌/◌, ◌%◌, ◌≤◌, ◌<◌}
use Prim.Native.Char.{Char, code}
use Prim.Native.String.{String, ◌++◌ as ◌+++◌}
use mathlib.Core.Path.{◌≡◌, refl, ap, ◌∙◌}
use mathlib.Core.Logic.{inl, inr}
use mathlib.Core.Option.{Option, none, some}
use native.Mathlib.Omega.{arith}
use text.Mathlib.TextLemmas.{append_assoc, cons-append, nil-append}
use unify_em.Base.Tests.{ltb, nat_eq, if◌then◌else◌, Bool-cases}

unfoldable pub digit : ℕ → String
digit n =
    if nat_eq n 0
    then "0"
    else if nat_eq n 1
    then "1"
    else if nat_eq n 2
    then "2"
    else if nat_eq n 3
    then "3"
    else if nat_eq n 4
    then "4"
    else if nat_eq n 5
    then "5"
    else if nat_eq n 6
    then "6"
    else if nat_eq n 7
    then "7"
    else if nat_eq n 8
    then "8"
    else "9"

-- Decimal digits; `suc n` rounds are enough for `n`, which falls at each.
unfoldable pub digits : ℕ → ℕ → String
unfolding digit
digits zero n = ""
digits (suc fuel) n =
    let rest = digits fuel (n / 10) in if ltb n 10 then digit n else rest +++ digit (n % 10)

abbrev pub next : Option ℕ → ℕ → Option ℕ
next none d = some d
next (some n) d = some (n * 10 + d)

pub single : (c : Char) (t : String) → String.◌∷◌ c String.[] +++ t ≡ String.◌∷◌ c t
single c t = cons-append c String.[] t ∙ ap (String.◌∷◌ c) (nil-append t)

pub digit_lem :
    (n : ℕ) (t : String)
    → n < 10
    → (c : Char) × (code c ≡ b'0' + n) × (digit n +++ t ≡ String.◌∷◌ c t)
unfolding digit
digit_lem zero t h = ("0", refl, single "0" t)
digit_lem (suc zero) t h = ("1", refl, single "1" t)
digit_lem (suc (suc zero)) t h = ("2", refl, single "2" t)
digit_lem (suc (suc (suc zero))) t h = ("3", refl, single "3" t)
digit_lem (suc (suc (suc (suc zero)))) t h = ("4", refl, single "4" t)
digit_lem (suc (suc (suc (suc (suc zero))))) t h = ("5", refl, single "5" t)
digit_lem (suc (suc (suc (suc (suc (suc zero)))))) t h = ("6", refl, single "6" t)
digit_lem (suc (suc (suc (suc (suc (suc (suc zero))))))) t h = ("7", refl, single "7" t)
digit_lem (suc (suc (suc (suc (suc (suc (suc (suc zero)))))))) t h = ("8", refl, single "8" t)
digit_lem (suc (suc (suc (suc (suc (suc (suc (suc (suc zero))))))))) t h = ("9", refl, single "9" t)
digit_lem (suc (suc (suc (suc (suc (suc (suc (suc (suc (suc n)))))))))) t h = absurd (omega arith)

pub starts_with_digit :
    (fuel n : ℕ) (t : String)
    → n < fuel
    → (c : Char) × (s : String) × (digits fuel n +++ t ≡ String.◌∷◌ c s) × (b'0' ≤ code c)
unfolding digits
starts_with_digit zero n t h = absurd (omega arith)
starts_with_digit (suc fuel) n t h = elim (Bool-cases (ltb n 10)) [
  | inl e ↦ let (c, k, same) = digit_lem n t (ground arith) in rw e (c, t, same, omega arith)
  | inr e ↦
      let (c, s, same, k) = starts_with_digit fuel (n / 10) (digit (n % 10) +++ t) (ground arith) in
      rw e (c, s, append_assoc (digits fuel (n / 10)) (digit (n % 10)) t ∙ same, k)
]
