-- ===== src/Base/Ensures.antt =====
-- Partial correctness of code that threads a state: `m` keeps an invariant however it ends, and a
-- value that it returns satisfies a predicate.
use mathlib.Core.Path.{◌≡◌, refl}
use mathlib.Core.Bool.{Bool, true, false}
use unify_em.Base.Tests.{if◌then◌else◌}
use unify_em.Base.Effects.{
  Outcome, ok, err, panic, Error, Exec, resume, ◌>>=◌, pure, raise, lift, wrapped, wrapping, Result,
  value, error, settle, attempt, ignore,
}

-- What holds of a value that was returned, if one was.
abbrev pub OnOk {ℓ κ} : {A : Type ℓ} → (A → Type κ) → Outcome A → Type κ
OnOk Φ (ok a) = Φ a
OnOk Φ (err e) = Unit
OnOk Φ panic = Unit

pub record Ensures (S : Type 0) (A : Type 0) (P : S → Type 0) (Φ : A → Type 0) (m : Exec S A)
    : Type 0 where
  pub at : (s : S) → P s → P (m s).1 × OnOk Φ (m s).0

abbrev pub Always : {A : Type 0} → A → Type 0
Always a = Unit

pub Always-ok : {A : Type 0} (r : Outcome A) → OnOk Always r
Always-ok (ok a) = tt
Always-ok (err e) = tt
Always-ok panic = tt

abbrev pub OnResult : {A : Type 0} → (A → Type 0) → Result A → Type 0
OnResult Φ (value a) = Φ a
OnResult Φ (error e) = Unit

OnOk-wrapped : {A : Type 0} (Φ : A → Type 0) (r : Outcome A) → OnOk Φ r → OnOk Φ (wrapped r)
OnOk-wrapped Φ (ok a) h = h
OnOk-wrapped Φ (err e) h = tt
OnOk-wrapped Φ panic h = tt

OnOk-settle :
    {A : Type 0} (Φ : A → Type 0) (r : Outcome A) → OnOk Φ r → OnOk (OnResult Φ) (settle r)
OnOk-settle Φ (ok a) h = h
OnOk-settle Φ (err e) h = tt
OnOk-settle Φ panic h = tt

module _ {S : Type 0} {P : S → Type 0} where
  pub Ensures-pure : {A : Type 0} {Φ : A → Type 0} (a : A) → Φ a → Ensures S A P Φ (pure a)
  Ensures-pure a h = record { at = λ s p. (p, h) }

  pub Ensures-raise : {A : Type 0} {Φ : A → Type 0} (e : Error) → Ensures S A P Φ (raise e)
  Ensures-raise e = record { at = λ s p. (p, tt) }

  pub Ensures-lift :
      {A : Type 0} {Φ : A → Type 0} (r : Outcome A) → OnOk Φ r → Ensures S A P Φ (lift r)
  Ensures-lift r h = record { at = λ s p. (p, h) }

  resume_lem :
      {A B : Type 0} {Φ : A → Type 0} {Ψ : B → Type 0} (f : A → Exec S B)
      → ((a : A) → Φ a → Ensures S B P Ψ (f a))
      → (r : Outcome A × S) → P r.1 × OnOk Φ r.0
      → P (resume f r).1 × OnOk Ψ (resume f r).0
  resume_lem f kf (ok a, s) h = (kf a h.1).at s h.0
  resume_lem f kf (err e, s) h = (h.0, tt)
  resume_lem f kf (panic, s) h = (h.0, tt)

  pub Ensures-bind :
      {A B : Type 0} {Φ : A → Type 0} {Ψ : B → Type 0} (m : Exec S A) (f : A → Exec S B)
      → Ensures S A P Φ m
      → ((a : A) → Φ a → Ensures S B P Ψ (f a))
      → Ensures S B P Ψ (m >>= f)
  Ensures-bind m f km kf = record { at = λ s p. resume_lem f kf (m s) (km.at s p) }

  pub Ensures-if :
      {A : Type 0} {Φ : A → Type 0} (b : Bool) (m n : Exec S A)
      → (b ≡ true → Ensures S A P Φ m)
      → (b ≡ false → Ensures S A P Φ n)
      → Ensures S A P Φ (if b then m else n)
  Ensures-if true m n km kn = km refl
  Ensures-if false m n km kn = kn refl

  pub Ensures-wrapping :
      {A : Type 0} {Φ : A → Type 0} (m : Exec S A)
      → Ensures S A P Φ m
      → Ensures S A P Φ (wrapping m)
  Ensures-wrapping m km = record {
    at = λ s p. let h : P (m s).1 × OnOk _ (m s).0 = km.at s p in (h.0, OnOk-wrapped _ (m s).0 h.1);
  }

  pub Ensures-attempt :
      {A : Type 0} {Φ : A → Type 0} (m : Exec S A)
      → Ensures S A P Φ m
      → Ensures S (Result A) P (OnResult Φ) (attempt m)
  Ensures-attempt m km = record {
    at = λ s p. let h : P (m s).1 × OnOk _ (m s).0 = km.at s p in (h.0, OnOk-settle _ (m s).0 h.1);
  }

  pub Ensures-ignore :
      {A : Type 0} {Φ : A → Type 0} (m : Exec S A)
      → Ensures S A P Φ m
      → Ensures S (Unit {0}) P Always (ignore m)
  Ensures-ignore m km =
      Ensures-bind (attempt m) (λ _. pure tt) (Ensures-attempt m km) (λ a _. Ensures-pure tt tt)
