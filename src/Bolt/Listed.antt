-- ===== src/Bolt/Listed.antt =====
-- A bucket as an association list with distinct keys: the laws of `Bolt` can be met. It refuses the
-- empty key, as bbolt does, and keeps the order of insertion where bbolt sorts.
use unify_em.Base.{
  String, ◌≡◌, refl, sym, ap, ◌∙◌, Option, none, some, [], ◌∷◌, if◌then◌else◌, ◌==◌, lookup, insert,
  erase, lookup-insert, lookup-erase, Dict, arith, eq_iff, Bool-cases, inl, inr, some_inj,
}
use unify_em.Bolt.{Bolt, DistinctKeys}

pub DistinctKeys-insert :
    {V : Type 0} (k : String) (v : V) (b : Dict V) → DistinctKeys b → DistinctKeys (insert k v b)
DistinctKeys-insert k v [] h = (refl, tt)
DistinctKeys-insert k v ((j, w) ∷ m) h = elim (Bool-cases (j == k)) [
  | inl same ↦ rw same (ground (arith, eq_iff j k), h.1)
  | inr other ↦
      rw other (
        ground (arith, lookup-insert k j v m, eq_iff j k, eq_iff k j),
        DistinctKeys-insert k v m h.1,
      )
]

pub DistinctKeys-erase :
    {V : Type 0} (k : String) (b : Dict V) → DistinctKeys b → DistinctKeys (erase k b)
DistinctKeys-erase k [] h = tt
DistinctKeys-erase k ((j, w) ∷ m) h = elim (Bool-cases (j == k)) [
  | inl same ↦ rw same (DistinctKeys-erase k m h.1)
  | inr other ↦ rw other (ground (arith, lookup-erase k j m), DistinctKeys-erase k m h.1)
]

pub record Listing (V : Type 0) : Type 0 where
  pub items : Dict V
  pub distinct : DistinctKeys items

abbrev pub put : {V : Type 0} → Listing V → String → V → Option (Listing V)
put b k v =
    if k == ""
    then none
    else some (record {
      items = insert k v b.items;
      distinct = DistinctKeys-insert k v b.items b.distinct;
    })

abbrev pub delete : {V : Type 0} → Listing V → String → Option (Listing V)
delete b k =
    some (record { items = erase k b.items; distinct = DistinctKeys-erase k b.items b.distinct })

pub get-put :
    (V : Type 0) (b : Listing V) (k : String) (v : V) (c : Listing V)
    → put b k v ≡ some c
    → (j : String) → lookup j c.items ≡ (if k == j then some v else lookup j b.items)
get-put V b k v c h j = elim (Bool-cases (k == "")) [
  | inl e ↦ cc (let g : none ≡ some c = rw e at h in g)
  | inr e ↦ sym (ap (λ l. lookup j l.items) (some_inj (rw e at h))) ∙ lookup-insert k j v b.items
]

pub get-delete :
    (V : Type 0) (b : Listing V) (k : String) (c : Listing V)
    → delete b k ≡ some c
    → (j : String) → lookup j c.items ≡ (if k == j then none else lookup j b.items)
get-delete V b k c h j = sym (ap (λ l. lookup j l.items) (some_inj h)) ∙ lookup-erase k j b.items

instance abbrev pub listed : Bolt
listed = record {
  Bucket = Listing;
  empty = record { items = []; distinct = tt };
  get = λ b k. lookup k b.items;
  put = put;
  delete = delete;
  entries = λ b. b.items;
  get-empty = λ V k. refl;
  get-put = get-put;
  get-delete = get-delete;
  lookup-entries = λ V b k. refl;
  entries_distinct = λ V b. b.distinct;
}
