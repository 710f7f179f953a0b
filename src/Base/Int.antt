-- ===== src/Base/Int.antt =====
-- Go's `int` and `int64` as integers with their range, and strconv.Atoi with the `%d` of fmt.
use Prim.Native.Nat.{ℕ, zero, suc, ◌+◌, ◌-◌, ◌/◌, ◌%◌, ◌≤◌, ◌<◌}
use Prim.Native.Char.{Char, code}
use Prim.Native.String.{String, ◌++◌ as ◌+++◌}
use mathlib.Core.Path.{◌≡◌, refl, sym, ap, ◌∙◌}
use mathlib.Core.Logic.{inl, inr}
use mathlib.Core.Bool.{Bool, true, false, ◌&&◌}
use mathlib.Core.Option.{Option, none, some}
use native.Mathlib.Omega.{arith}
use text.Mathlib.TextLemmas.{append_assoc, append-nil}
use unify_em.Base.Tests.{ltb, leb, nat_eq, if◌then◌else◌, Bool-cases}
use unify_em.Base.Decimal.{next, digit, digits, single, digit_lem, starts_with_digit}

-- `negsuc n` is -(n + 1).
pub data ℤ : Type 0 where
  pos : ℕ → ℤ
  negsuc : ℕ → ℤ

abbrev pub pos_part : ℤ → ℕ
pos_part (pos n) = n
pos_part (negsuc n) = 0

abbrev pub neg_part : ℤ → ℕ
neg_part (pos n) = 0
neg_part (negsuc n) = suc n

infix 50 ◌≤ℤ◌
abbrev pub ◌≤ℤ◌ : ℤ → ℤ → Type 0
a ≤ℤ b = pos_part a + neg_part b ≤ pos_part b + neg_part a

abbrev pub ltb_ℤ : ℤ → ℤ → Bool
ltb_ℤ a b = ltb (pos_part a + neg_part b) (pos_part b + neg_part a)

abbrev pub is_zero : ℤ → Bool
is_zero (pos n) = nat_eq n 0
is_zero (negsuc n) = false

-- The least integer below an int64, without the sign.
abbrev pub int64_bound : ℕ
int64_bound = 9223372036854775808

pub ltb_ℤ-le : (a b : ℤ) → ltb_ℤ a b ≡ false → b ≤ℤ a
ltb_ℤ-le a b h = ground arith

pub is_zero-pos : (a : ℤ) → is_zero a ≡ true → a ≡ pos 0
is_zero-pos (pos n) h = ap pos (ground arith)
is_zero-pos (negsuc n) h = cc

-- The fmt verb %d.
unfoldable pub int_text : ℤ → String
int_text (pos n) = digits (suc n) n
int_text (negsuc n) = "-" +++ digits (suc (suc n)) (suc n)

-- The digits up to the end of the text.
pub parse_digits : Option ℕ → String → Option ℕ
parse_digits acc String.[] = acc
parse_digits acc (String.◌∷◌ c s) =
    let n = code c in
    let rest = parse_digits (next acc (n - b'0')) s in
    if leb b'0' n && leb n b'9' then rest else none

abbrev non_negative : Option ℕ → Option ℤ
non_negative none = none
non_negative (some n) = if ltb n int64_bound then some (pos n) else none

abbrev minus : ℕ → ℤ
minus zero = pos 0
minus (suc n) = negsuc n

abbrev non_positive : Option ℕ → Option ℤ
non_positive none = none
non_positive (some n) = if leb n int64_bound then some (minus n) else none

-- strconv.Atoi, and strconv.ParseInt with base 10 and 64 bits; `none` is an error.
unfoldable pub atoi : String → Option ℤ
unfolding parse_digits
atoi String.[] = none
atoi (String.◌∷◌ c s) =
    if nat_eq (code c) b'-'
    then non_positive (parse_digits none s)
    else if nat_eq (code c) b'+'
    then non_negative (parse_digits none s)
    else non_negative (parse_digits none (String.◌∷◌ c s))

parse-digit :
    (n : ℕ) (acc : Option ℕ) (t : String)
    → n < 10
    → parse_digits acc (digit n +++ t) ≡ parse_digits (next acc n) t
unfolding parse_digits
parse-digit n acc t h =
    let (c, k, e) = digit_lem n t h in
    let range : leb b'0' (code c) && leb (code c) b'9' ≡ true = ground arith in
    let value : code c - b'0' ≡ n = omega arith in ap (parse_digits acc) e ∙ rw (range, value) refl

parse-digits :
    (fuel n : ℕ) (t : String)
    → n < fuel
    → parse_digits none (digits fuel n +++ t) ≡ parse_digits (some n) t
unfolding digits
parse-digits zero n t h = absurd (omega arith)
parse-digits (suc fuel) n t h = elim (Bool-cases (ltb n 10)) [
  | inl e ↦ rw e (parse-digit n none t (ground arith))
  | inr e ↦ rw e (
      ap (parse_digits none) (append_assoc (digits fuel (n / 10)) (digit (n % 10)) t)
      ∙ parse-digits fuel (n / 10) (digit (n % 10) +++ t) (ground arith)
      ∙ parse-digit (n % 10) (some (n / 10)) t (omega arith)
      ∙ ap (λ m. parse_digits (some m) t) (omega arith))
]

abbrev pub IsInt64 : ℤ → Type 0
IsInt64 (pos n) = n < int64_bound
IsInt64 (negsuc n) = n < int64_bound

parse-text : (n : ℕ) → parse_digits none (digits (suc n) n) ≡ some n
unfolding parse_digits
parse-text n =
    ap (parse_digits none) (sym (append-nil (digits (suc n) n)))
    ∙ parse-digits (suc n) n String.[] (omega arith)

unsigned :
    (text : String) (c : Char) (s : String)
    → text ≡ String.◌∷◌ c s
    → b'0' ≤ code c
    → atoi text ≡ non_negative (parse_digits none text)
unfolding atoi
unsigned text c s same k =
    let not_minus : nat_eq (code c) b'-' ≡ false = ground arith in
    let not_plus : nat_eq (code c) b'+' ≡ false = ground arith in
    rw (same, not_minus, not_plus) refl

ltb-true : (a b : ℕ) → a < b → ltb a b ≡ true
ltb-true a b h = ground arith

leb-true : (a b : ℕ) → a ≤ b → leb a b ≡ true
leb-true a b h = ground arith

-- strconv.Atoi reads back what %d prints, for every 64-bit integer.
pub atoi-int_text : (n : ℤ) → IsInt64 n → atoi (int_text n) ≡ some n
unfolding int_text atoi
atoi-int_text (pos n) h =
    let (c, s, same, k) = starts_with_digit (suc n) n String.[] (omega arith) in
    let plain : digits (suc n) n ≡ String.◌∷◌ c s = sym (append-nil (digits (suc n) n)) ∙ same in
    unsigned _ c s plain k ∙ ap non_negative (parse-text n) ∙ rw (ltb-true n int64_bound h) refl
atoi-int_text (negsuc n) h =
    ap atoi (single "-" (digits (suc (suc n)) (suc n)))
    ∙ ap non_positive (parse-text (suc n))
    ∙ rw (leb-true (suc n) int64_bound (omega arith)) refl
