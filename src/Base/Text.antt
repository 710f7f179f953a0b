-- ===== src/Base/Text.antt =====
-- Go's strings.Split with a separator of one byte.
use Prim.Native.Nat.{ℕ}
use Prim.Native.Char.{Char, code}
use Prim.Native.String.{String, ◌++◌ as ◌+++◌}
use mathlib.Core.Path.{◌≡◌, refl, ap, ◌∙◌}
use mathlib.Core.Logic.{inl, inr}
use mathlib.Core.Bool.{Bool, true, false}
use mathlib.Core.List.{List, [], ◌∷◌}
use native.Mathlib.Omega.{arith}
use text.Mathlib.TextLemmas.{cons-append, nil-append}
use unify_em.Base.Tests.{nat_eq, if◌then◌else◌, Bool-cases}

abbrev pub glue : Char → List String → List String
glue c [] = String.◌∷◌ c String.[] ∷ []
glue c (part ∷ parts) = String.◌∷◌ c part ∷ parts

unfoldable pub split : ℕ → String → List String
split sep String.[] = "" ∷ []
split sep (String.◌∷◌ c s) =
    let rest = split sep s in if nat_eq (code c) sep then "" ∷ rest else glue c rest

abbrev pub has_code : ℕ → String → Bool
has_code n String.[] = false
has_code n (String.◌∷◌ c s) = let rest = has_code n s in if nat_eq (code c) n then true else rest

pub tail-plain :
    (n : ℕ) (c : Char) (s : String)
    → has_code n (String.◌∷◌ c s) ≡ false
    → (nat_eq (code c) n ≡ false) × (has_code n s ≡ false)
tail-plain n c s h = elim (Bool-cases (nat_eq (code c) n)) [
  | inl same ↦ cc (let g : true ≡ false = rw same at h in g)
  | inr other ↦ (other, rw other at h)
]

split-plain : (n : ℕ) (s : String) → has_code n s ≡ false → split n s ≡ s ∷ []
unfolding split
split-plain n String.[] h = refl
split-plain n (String.◌∷◌ c s) h =
    let (other, rest) = tail-plain n c s h in rw (other, split-plain n s rest) refl

nat_eq_self : (n : ℕ) → nat_eq n n ≡ true
nat_eq_self n = ground arith

-- A text of two parts around one separator is split into them.
pub split-two :
    (sep : Char) (a b : String)
    → has_code (code sep) a ≡ false
    → has_code (code sep) b ≡ false
    → split (code sep) (a +++ String.◌∷◌ sep b) ≡ a ∷ b ∷ []
unfolding split
split-two sep String.[] b ha hb =
    ap (split (code sep)) (nil-append (String.◌∷◌ sep b))
    ∙ rw (nat_eq_self (code sep), split-plain (code sep) b hb) refl
split-two sep (String.◌∷◌ c a) b ha hb =
    let (other, rest) = tail-plain (code sep) c a ha in
    ap (split (code sep)) (cons-append c a (String.◌∷◌ sep b))
    ∙ rw (other, split-two sep a b rest hb) refl
