-- ===== src/Db/Bucket/Every.antt =====
-- Invariants of the form "every record that a bucket holds satisfies Q", through each operation.
use mathlib.Core.Path.{subst₂}
use unify_em.Base.{
  String, ◌≡◌, refl, sym, ap, ◌∙◌, Bool, true, false, ◌&&◌, Option, none, some, [], ◌∷◌,
  if◌then◌else◌, Dict, ◌==◌, Exec, Bool-cases, Option-cases, inl, inr, eq_iff, All, is_some, ◌⊎◌,
  fault, bucket_not_found,
}
use unify_em.Base.Ensures.{
  Ensures, OnOk, Always, Always-ok, Ensures-pure, Ensures-bind, Ensures-raise,
}
use unify_em.Bolt.{Bolt}
use unify_em.Db.Bucket.{
  Db, Slot, Stored, decodes, garbage, committed, deleted, fetched, set_data, get_data, delete_data,
  check_data, visit, visit_bucket, for_each,
}
use unify_em.Db.Bucket.Laws.{
  stored_at, found, is_ok, stored_at-set_data, stored_at-delete_data, entries_All,
}

module _ ⦃B : Bolt⦄ {V : Type 0} where
  abbrev pub Every : Slot V → (String → V → Type 0) → Db → Type 0
  Every s Q d = (key : String) (v : V) → stored_at s d key ≡ some (decodes v) → Q key v

  -- What a callback may use of an entry.
  abbrev pub OnStored : (String → V → Type 0) → String → Stored V → Type 0
  OnStored Q key (decodes v) = Q key v
  OnStored Q key garbage = Unit

  decodes_inj : {v w : V} → some (decodes v) ≡ some (decodes w) → v ≡ w
  decodes_inj h = cc

  written :
      (Q : String → V → Type 0) (ok_key : Bool) (k j : String) (v w : V) (old : Option (Stored V))
      → (if ok_key && k == j then some (decodes v) else old) ≡ some (decodes w)
      → ((v ≡ w) × (k ≡ j)) ⊎ (old ≡ some (decodes w))
  written Q true k j v w old h = elim (Bool-cases (k == j)) [
    | inl e ↦ inl (decodes_inj (rw e at h), (eq_iff k j).0 e)
    | inr e ↦ inr (rw e at h)
  ]
  written Q false k j v w old h = inr h

  module _ (s : Slot V) (Q : String → V → Type 0) where
    pick :
        (key j : String) (v w : V) {o : Option (Stored V)}
        → Q key v
        → (o ≡ some (decodes w) → Q j w)
        → ((v ≡ w) × (key ≡ j)) ⊎ (o ≡ some (decodes w))
        → Q j w
    pick key j v w q old (inl (same, here)) = subst₂ Q here same q
    pick key j v w q old (inr e) = old e

    pub set_data-Every :
        (key : String) (v : V)
        → Q key v
        → Ensures Db (Unit {0}) (Every s Q) Always (set_data s key v)
    set_data-Every key v q = record {
      at = λ d h. (
        λ j w e.
            pick key j v w q (h j w)
              (written Q _ key j v w _ (sym (stored_at-set_data s key v d j) ∙ e)),
        Always-ok _,
      );
    }

    kept :
        (b c : Bool) {old : Option (Stored V)} {w : V}
        → (if b && c then none else old) ≡ some (decodes w)
        → old ≡ some (decodes w)
    kept true true h = cc
    kept true false h = h
    kept false c h = h

    pub delete_data-Every :
        (key : String) → Ensures Db (Unit {0}) (Every s Q) Always (delete_data s key)
    delete_data-Every key = record {
      at = λ d h. (
        λ j w e. h j w (
            kept (is_ok (delete_data s key d).0) (key == j)
              (sym (stored_at-delete_data s key d j) ∙ e)),
        Always-ok _,
      );
    }

    fetched_lem :
        (o : Option (B.Bucket (Stored V))) (key : String)
        → ((v : V) → found o key ≡ some (decodes v) → Q key v)
        → OnOk (Q key) (fetched o key)
    fetched_lem none key h = tt
    fetched_lem (some b) key h = elim (Option-cases (B.get b key)) [
      | inl e ↦ rw e tt
      | inr (decodes v, e) ↦ rw e (h v e)
      | inr (garbage, e) ↦ rw e tt
    ]

    pub get_data-Every : (key : String) → Ensures Db V (Every s Q) (Q key) (get_data s key)
    unfolding get_data
    get_data-Every key = record { at = λ d h. (h, fetched_lem (s.read d) key (h key)) }

    pub check_data-Every :
        (key : String) → Ensures Db (Unit {0}) (Every s Q) Always (check_data s key)
    unfolding check_data
    check_data-Every key = record { at = λ d h. (h, Always-ok _) }

    module _ {A : Type 0} (Φ : A → Type 0) (fn : String → Stored V → A → Exec Db A)
        (step : (key : String) (v : Stored V) (acc : A)
          → OnStored Q key v
          → Φ acc
          → Ensures Db A (Every s Q) Φ (fn key v acc)) where
      visit-Every :
          (m : Dict (Stored V)) (acc : A)
          → All (λ p. OnStored Q p.0 p.1) m
          → Φ acc
          → Ensures Db A (Every s Q) Φ (visit fn acc m)
      unfolding visit
      visit-Every [] acc h q = Ensures-pure acc q
      visit-Every ((key, v) ∷ rest) acc h q =
          Ensures-bind (fn key v acc) (λ acc'. visit fn acc' rest) (step key v acc h.0 q)
            (λ acc' q'. visit-Every rest acc' h.1 q')

      on_entry :
          (b : B.Bucket (Stored V))
          → ((key : String) (v : V) → B.get b key ≡ some (decodes v) → Q key v)
          → (key : String) (v : Stored V) → B.get b key ≡ some v
          → OnStored Q key v
      on_entry b h key (decodes v) e = h key v e
      on_entry b h key garbage e = tt

      visit_bucket-Every :
          (acc : A) (o : Option (B.Bucket (Stored V)))
          → ((key : String) (v : V) → found o key ≡ some (decodes v) → Q key v)
          → Φ acc
          → Ensures Db A (Every s Q) Φ (visit_bucket fn acc o)
      unfolding visit_bucket
      visit_bucket-Every acc none h q = Ensures-raise (fault bucket_not_found)
      visit_bucket-Every acc (some b) h q =
          visit-Every (B.entries b) acc
            (entries_All (OnStored Q) (B.entries b) (B.entries_distinct _ b)
              (λ key v e. on_entry b h key v (sym (B.lookup-entries _ b key) ∙ e)))
            q

      pub for_each-Every : (acc : A) → Φ acc → Ensures Db A (Every s Q) Φ (for_each s fn acc)
      unfolding for_each
      for_each-Every acc q = record { at = λ d h. (visit_bucket-Every acc (s.read d) h q).at d h }

module _ ⦃B : Bolt⦄ {V W : Type 0} (s : Slot V) (Q : String → V → Type 0) (t : Slot W) where
  -- A write to one bucket is not seen in the other.
  abbrev pub Apart : Type 0
  Apart = (b : B.Bucket (Stored W)) (d : Db) → s.read (t.write b d) ≡ s.read d

  committed_apart :
      Apart → (d : Db) (o : Option (B.Bucket (Stored W))) → s.read (committed t d o).1 ≡ s.read d
  committed_apart apart d none = refl
  committed_apart apart d (some b) = apart b d

  deleted_apart :
      Apart
      → (key : String) (d : Db) (o : Option (B.Bucket (Stored W)))
      → s.read (deleted t key d o).1 ≡ s.read d
  deleted_apart apart key d none = refl
  deleted_apart apart key d (some b) = elim (Bool-cases (is_some (B.get b key))) [
    | inl e ↦ rw e (committed_apart apart d _)
    | inr e ↦ rw e
  ]

  pub set_data_apart :
      Apart → (key : String) (v : W) → Ensures Db (Unit {0}) (Every s Q) Always (set_data t key v)
  unfolding set_data
  set_data_apart apart key v = record {
    at = λ d h.
        (λ j w e. h j w (sym (ap (λ o. found o j) (committed_apart apart d _)) ∙ e), Always-ok _);
  }

  pub delete_data_apart :
      Apart → (key : String) → Ensures Db (Unit {0}) (Every s Q) Always (delete_data t key)
  unfolding delete_data
  delete_data_apart apart key = record {
    at = λ d h.
        (λ j w e. h j w (sym (ap (λ o. found o j) (deleted_apart apart key d _)) ∙ e), Always-ok _);
  }

-- A loop keeps whatever each of its rounds keeps.
module _ ⦃B : Bolt⦄ {V A : Type 0} (P : Db → Type 0) (Φ : A → Type 0)
    (fn : String → Stored V → A → Exec Db A)
    (step : (key : String) (v : Stored V) (acc : A) → Φ acc → Ensures Db A P Φ (fn key v acc)) where
  visit-Keeps : (m : Dict (Stored V)) (acc : A) → Φ acc → Ensures Db A P Φ (visit fn acc m)
  unfolding visit
  visit-Keeps [] acc q = Ensures-pure acc q
  visit-Keeps ((key, v) ∷ rest) acc q =
      Ensures-bind (fn key v acc) (λ acc'. visit fn acc' rest) (step key v acc q)
        (λ acc' q'. visit-Keeps rest acc' q')

  visit_bucket-Keeps :
      (acc : A) (o : Option (B.Bucket (Stored V)))
      → Φ acc
      → Ensures Db A P Φ (visit_bucket fn acc o)
  unfolding visit_bucket
  visit_bucket-Keeps acc none q = Ensures-raise (fault bucket_not_found)
  visit_bucket-Keeps acc (some b) q = visit-Keeps (B.entries b) acc q

  pub for_each-Keeps : (s : Slot V) (acc : A) → Φ acc → Ensures Db A P Φ (for_each s fn acc)
  unfolding for_each
  for_each-Keeps s acc q = record { at = λ d p. (visit_bucket-Keeps acc (s.read d) q).at d p }
