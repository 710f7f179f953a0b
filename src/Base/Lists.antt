-- ===== src/Base/Lists.antt =====
-- Lists, and what holds of every element.
use mathlib.Core.Bool.{Bool, true, false, ◌||◌}
use mathlib.Core.Logic.{inl, inr}
use mathlib.Core.Path.{◌≡◌, subst}
use text.Mathlib.TextEquality.{eq_iff}
use unify_em.Base.Tests.{Bool-cases}
use mathlib.Core.List.{List, [], ◌∷◌}
use Prim.Native.Nat.{ℕ, suc}
use Prim.Native.String.{String}
use text.Mathlib.Text.{◌==◌}

module _ {ℓ} {A : Type ℓ} where
  abbrev pub length : List A → ℕ
  length [] = 0
  length (x ∷ xs) = suc (length xs)

abbrev pub All {ℓ κ} : {A : Type ℓ} → (A → Type κ) → List A → Type κ
All P [] = Unit
All P (x ∷ xs) = P x × All P xs

-- Membership with the place kept, as the proofs by cases need it.
abbrev pub contains : String → List String → Bool
contains s [] = false
contains s (x ∷ xs) = x == s || contains s xs

pub All-map {ℓ κ μ} :
    {A : Type ℓ} (P : A → Type κ) (R : A → Type μ) (f : (a : A) → P a → R a) (xs : List A)
    → All P xs
    → All R xs
All-map P R f [] h = tt
All-map P R f (x ∷ xs) h = (f x h.0, All-map P R f xs h.1)

pub contains-All :
    (P : String → Type 0) (ks : List String) (key : String)
    → All P ks
    → contains key ks ≡ true
    → P key
contains-All P [] key h e = cc
contains-All P (k ∷ ks) key h e = elim (Bool-cases (k == key)) [
  | inl same ↦ subst P ((eq_iff k key).0 same) h.0
  | inr apart ↦ contains-All P ks key h.1 (rw apart at e)
]
