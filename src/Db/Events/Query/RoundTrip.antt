-- ===== src/Db/Events/Query/RoundTrip.antt =====
-- The time in an event's key is read back.
use Prim.Native.Nat.{◌≤◌, ◌<◌}
use Prim.Native.Char.{Char, code}
use Prim.Native.String.{◌++◌ as ◌+++◌}
use text.Mathlib.TextLemmas.{append_assoc}
use unify_em.Base.{
  ℕ, zero, suc, ◌-◌, ◌/◌, ◌%◌, String, ◌≡◌, refl, ap, ◌∙◌, true, false, Option, none, some, ltb,
  leb, nat_eq, arith, Bool-cases, inl, inr, ◌&&◌,
}
use unify_em.Base.Decimal.{next, digit, digits, single, digit_lem, starts_with_digit}
use unify_em.Schema.{AgentEvent}
use unify_em.Db.Events.{unix_epoch, unix_text, event_key}
use unify_em.Db.Events.Query.{read_digits, read_time, after_epoch, before_epoch}

read-digit :
    (n : ℕ) (acc : Option ℕ) (t : String)
    → n < 10
    → read_digits acc (digit n +++ t) ≡ read_digits (next acc n) t
unfolding read_digits
read-digit n acc t h =
    let (c, k, e) = digit_lem n t h in
    let range : leb b'0' (code c) && leb (code c) b'9' ≡ true = ground arith in
    let value : code c - b'0' ≡ n = omega arith in ap (read_digits acc) e ∙ rw (range, value) refl

-- The digits of a number are read as the number, whatever follows.
read-digits :
    (fuel n : ℕ) (t : String)
    → n < fuel
    → read_digits none (digits fuel n +++ t) ≡ read_digits (some n) t
unfolding digits
read-digits zero n t h = absurd (omega arith)
read-digits (suc fuel) n t h = elim (Bool-cases (ltb n 10)) [
  | inl e ↦ rw e (read-digit n none t (ground arith))
  | inr e ↦ rw e (
      ap (read_digits none) (append_assoc (digits fuel (n / 10)) (digit (n % 10)) t)
      ∙ read-digits fuel (n / 10) (digit (n % 10) +++ t) (ground arith)
      ∙ read-digit (n % 10) (some (n / 10)) t (omega arith)
      ∙ ap (λ m. read_digits (some m) t) (omega arith))
]

read-text : (n : ℕ) (id : String) → read_digits none (digits (suc n) n +++ ("-" +++ id)) ≡ some n
unfolding read_digits
read-text n id =
    read-digits (suc n) n ("-" +++ id) (omega arith) ∙ ap (read_digits (some n)) (single "-" id)

unsigned :
    (c : Char) (s : String)
    → b'0' ≤ code c
    → read_time (String.◌∷◌ c s) ≡ after_epoch (read_digits none (String.◌∷◌ c s))
unfolding read_time
unsigned c s k =
    let not_minus : nat_eq (code c) b'-' ≡ false = ground arith in
    let not_plus : nat_eq (code c) b'+' ≡ false = ground arith in rw (not_minus, not_plus) refl

read_unsigned :
    (text : String) (c : Char) (s : String)
    → text ≡ String.◌∷◌ c s
    → b'0' ≤ code c
    → read_time text ≡ after_epoch (read_digits none text)
read_unsigned text c s same k = rw same (unsigned c s k)

late_lem :
    (s : ℕ) (id : String)
    → ltb s unix_epoch ≡ false
    → read_time (digits (suc (s - unix_epoch)) (s - unix_epoch) +++ ("-" +++ id)) ≡ some s
late_lem s id h =
    let n = s - unix_epoch in
    let (c, rest, same, k) = starts_with_digit (suc n) n ("-" +++ id) (omega arith) in
    read_unsigned _ c rest same k ∙ ap after_epoch (read-text n id) ∙ ap some (ground arith)

early_lem :
    (s : ℕ) (id : String)
    → ltb s unix_epoch ≡ true
    → read_time (("-" +++ digits (suc (unix_epoch - s)) (unix_epoch - s)) +++ ("-" +++ id)) ≡ some s
unfolding read_time
early_lem s id h =
    let n = unix_epoch - s in
    ap read_time (
      append_assoc "-" (digits (suc n) n) ("-" +++ id)
      ∙ single "-" (digits (suc n) n +++ ("-" +++ id)))
    ∙ ap before_epoch (read-text n id)
    ∙ ap some (ground arith)

-- The time that GetEvents reads from an event's key is that of the event, in whole seconds.
pub read_time-event_key : (e : AgentEvent) → read_time (event_key e) ≡ some (e.time / 1000000000)
unfolding event_key unix_text
read_time-event_key e = elim (Bool-cases (ltb (e.time / 1000000000) unix_epoch)) [
  | inl early ↦ rw early (early_lem (e.time / 1000000000) e.event_id early)
  | inr late ↦ rw late (late_lem (e.time / 1000000000) e.event_id late)
]
