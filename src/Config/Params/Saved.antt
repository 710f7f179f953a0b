-- ===== src/Config/Params/Saved.antt =====
-- Settings that are saved with Serialize and loaded with Deserialize.
use unify_em.Base.{
  String, ◌≡◌, refl, sym, ap, ◌∙◌, false, Option, none, some, [], ◌∷◌, ◌==◌, Dict, lookup,
  lookup-insert, Bool-cases, inl, inr, eq_iff, some_inj,
}
use unify_em.Bolt.{DistinctKeys}
use unify_em.Config.Params.{
  Element, Params, text, enforce, element_of, set, set_string_map, get, get_map, serialize,
  deserialize,
}
use unify_em.Config.Params.Admitted.{
  admitted, enforce-admitted, found, get-found, get-set_value, admitted-admitted,
}

abbrev map_enforce : Option Element → Option String
map_enforce none = none
map_enforce (some e) = some (enforce e)

lookup-get_map : (key : String) (p : Params) → lookup key (get_map p) ≡ map_enforce (lookup key p)
unfolding get_map
lookup-get_map key [] = refl
lookup-get_map key ((j, e) ∷ p) = elim (Bool-cases (j == key)) [
  | inl same ↦ rw same refl
  | inr other ↦ rw other (lookup-get_map key p)
]

DistinctKeys-get_map : (p : Params) → DistinctKeys p → DistinctKeys (get_map p)
unfolding get_map
DistinctKeys-get_map [] h = tt
DistinctKeys-get_map ((j, e) ∷ p) h =
    (lookup-get_map j p ∙ ap map_enforce h.0, DistinctKeys-get_map p h.1)

module _ (key : String) where
  -- A key that the loaded map does not have reads as before.
  pub untouched :
      (m : Dict String) (q : Params)
      → lookup key m ≡ none
      → (get key (set_string_map m q)).0 ≡ (get key q).0
  unfolding set_string_map
  untouched [] q h = refl
  untouched ((j, s) ∷ m) q h = elim (Bool-cases (j == key)) [
    | inl same ↦ cc (let g : some s ≡ none = rw same at h in g)
    | inr other ↦
        untouched m (set j (text s) q) (rw other at h)
        ∙ get-set_value j key (text s) q tt
        ∙ rw other refl
  ]

  kept_element :
      (j s : String) (q : Params) → j == key ≡ false → lookup key (set j (text s) q) ≡ lookup key q
  unfolding set
  kept_element j s q other = lookup-insert j key _ q ∙ rw other refl

  pub loaded :
      (m : Dict String) (q : Params) (s : String)
      → DistinctKeys m
      → lookup key m ≡ some s
      → (get key (set_string_map m q)).0 ≡ admitted (element_of (lookup key q)) s
  unfolding set_string_map
  loaded [] q s d h = cc
  loaded ((j, t) ∷ m) q s d h = elim (Bool-cases (j == key)) [
    | inl same ↦
        let is_key : j ≡ key = (eq_iff j key).0 same in
        untouched m (set j (text t) q) (ap (λ k. lookup k m) (sym is_key) ∙ d.0)
        ∙ get-set_value j key (text t) q tt
        ∙ rw (same, is_key) (ap (admitted (element_of (lookup key q))) (some_inj (rw same at h)))
    | inr other ↦
        loaded m (set j (text t) q) s d.1 (rw other at h)
        ∙ ap (λ o. admitted (element_of o) s) (kept_element j t q other)
  ]

-- A setting that is saved, and loaded into settings that have its key with the same default and
-- limits, reads as it did.
pub deserialize-serialize :
    (key : String) (p q : Params) (e e' : Element)
    → DistinctKeys p
    → lookup key p ≡ some e
    → lookup key q ≡ some e'
    → e'.default_value ≡ e.default_value
    → e'.min ≡ e.min
    → e'.max ≡ e.max
    → (get key (deserialize (serialize p) q).1).0 ≡ (get key p).0
unfolding serialize deserialize
deserialize-serialize key p q e e' d there there' def low high =
    loaded key (get_map p) q (enforce e) (DistinctKeys-get_map p d)
      (lookup-get_map key p ∙ ap map_enforce there)
    ∙ ap (λ o. admitted (element_of o) (enforce e)) there'
    ∙ same_element
    ∙ ap (admitted e) (enforce-admitted e)
    ∙ admitted-admitted e e.value
    ∙ sym (get-found key p ∙ ap found there)
  where
    same_element : admitted e' (enforce e) ≡ admitted e (enforce e)
    same_element = rw (def, low, high) refl
