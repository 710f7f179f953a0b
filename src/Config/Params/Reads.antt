-- ===== src/Config/Params/Reads.antt =====
-- Get of a key saves the value that the limits leave; another key reads as before.
use unify_em.Base.{
  some, String, ◌≡◌, refl, sym, ap, ◌∙◌, false, ◌==◌, Bool-cases, inl, inr, lookup, lookup-insert,
  Option-cases,
}
use unify_em.Config.Params.{Params, Element, get, get_found, enforce}
use unify_em.Config.Params.Admitted.{found, get-found}

saved :
    (k j : String) (p : Params) (e : Element)
    → lookup k p ≡ some e
    → (k == j) ≡ false
    → lookup j (get_found k p (some e)).1 ≡ lookup j p
unfolding get_found
saved k j p e there h = elim (Bool-cases (enforce e == e.value)) [
  | inl same ↦ rw same refl
  | inr changed ↦ rw changed (lookup-insert k j _ p ∙ rw h refl)
]

-- Get of a key after Get of another.
pub get-get : (k j : String) (p : Params) → (k == j) ≡ false → (get j (get k p).1).0 ≡ (get j p).0
unfolding get
get-get k j p h = elim (Option-cases (lookup k p)) [
  | inl gone ↦ rw (gone, get) refl
  | inr (e, there) ↦ rw there (
      get-found j (get_found k p (some e)).1
      ∙ ap found (saved k j p e there h)
      ∙ sym (get-found j p))
]
