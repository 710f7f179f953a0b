-- ===== src/Base/Inversion.antt =====
-- What the outcome of a bind says of its parts.
use mathlib.Core.Path.{◌≡◌, refl}
use unify_em.Base.Effects.{Outcome, ok, err, panic, Error, Exec, resume, wrapped}

pub ok_inj {ℓ} : {A : Type ℓ} {x y : A} → ok x ≡ ok y → x ≡ y
ok_inj h = cc

module _ {S A B : Type 0} (f : A → Exec S B) where
  pub resume-eq-ok :
      (p : Outcome A × S) {b : B}
      → (resume f p).0 ≡ ok b
      → (a : A) × (p.0 ≡ ok a) × ((f a p.1).0 ≡ ok b)
  resume-eq-ok (ok a, s) h = (a, refl, h)
  resume-eq-ok (err e, s) h = cc
  resume-eq-ok (panic, s) h = cc

  -- The first part is known.
  pub resume-ok : (p : Outcome A × S) {a : A} → p.0 ≡ ok a → resume f p ≡ f a p.1
  resume-ok (ok b, s) h = ap_state (ok_inj h)
    where
      ap_state : {a : A} → b ≡ a → f b s ≡ f a s
      ap_state e = cc
  resume-ok (err e, s) h = cc
  resume-ok (panic, s) h = cc

  pub resume-err : (p : Outcome A × S) {e : Error} → p.0 ≡ err e → resume f p ≡ (err e, p.1)
  resume-err (ok b, s) h = cc
  resume-err (err e, s) h = cc
  resume-err (panic, s) h = cc

pub wrapped-eq-ok : {A : Type 0} (r : Outcome A) {a : A} → wrapped r ≡ ok a → r ≡ ok a
wrapped-eq-ok (ok b) h = h
wrapped-eq-ok (err e) h = cc
wrapped-eq-ok panic h = cc
