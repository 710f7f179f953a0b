-- ===== src/Db/Bucket/Laws.antt =====
-- What the operations on a bucket do, read key by key.
use unify_em.Base.{
  String, ◌≡◌, refl, Bool, true, false, ◌&&◌, Option, none, some, [], ◌∷◌, if◌then◌else◌, Dict,
  ◌==◌, lookup, Outcome, ok, err, Bool-cases, inl, inr, fault, is_some, ◌⊎◌, All, wrap,
  write_failed, eq_iff, eq_refl,
}
use unify_em.Bolt.{Bolt, DistinctKeys}
use unify_em.Db.Bucket.{
  Db, Slot, Stored, decodes, or_empty, set_data, committed, deleted, fetched, delete_data,
}

abbrev pub is_ok : {A : Type 0} → Outcome A → Bool
is_ok (ok a) = true
is_ok _ = false

module _ ⦃B : Bolt⦄ {V : Type 0} where
  -- bucket.Get of a bucket that may not be there
  abbrev pub found : Option (B.Bucket (Stored V)) → String → Option (Stored V)
  found none key = none
  found (some b) key = B.get b key

  abbrev pub stored_at : Slot V → Db → String → Option (Stored V)
  stored_at s d key = found (s.read d) key

  pub found-or_empty :
      (o : Option (B.Bucket (Stored V))) (j : String) → B.get (or_empty o) j ≡ found o j
  found-or_empty none j = B.get-empty (Stored V) j
  found-or_empty (some b) j = refl

  committed_lem :
      (s : Slot V) (d : Db) (o : Option (B.Bucket (Stored V))) (j : String)
      → stored_at s (committed s d o).1 j ≡ (elim o [ none ↦ stored_at s d j | some c ↦ B.get c j ])
  committed_lem s d none j = refl
  committed_lem s d (some c) j = rw s.read_write

  put_lem :
      (s : Slot V) (key : String) (v : V) (d : Db) (j : String) (o : Option (B.Bucket (Stored V)))
      → B.put (or_empty (s.read d)) key (decodes v) ≡ o
      → stored_at s (committed s d o).1 j
        ≡ (if is_ok (committed s d o).0 && key == j then some (decodes v) else stored_at s d j)
  put_lem s key v d j none e = refl
  put_lem s key v d j (some c) e =
      rw (s.read_write, B.get-put _ _ key _ c e j, found-or_empty (s.read d) j)

  -- SetData leaves the value under the key exactly where it returns nil, and changes nothing else
  -- in the bucket.
  pub stored_at-set_data :
      (s : Slot V) (key : String) (v : V) (d : Db) (j : String)
      → stored_at s (set_data s key v d).1 j
        ≡ (if is_ok (set_data s key v d).0 && key == j then some (decodes v) else stored_at s d j)
  unfolding set_data
  stored_at-set_data s key v d j = put_lem s key v d j _ refl

  remove_lem :
      (s : Slot V) (key : String) (d : Db) (j : String) (b : B.Bucket (Stored V))
      → s.read d ≡ some b
      → (o : Option (B.Bucket (Stored V))) → B.delete b key ≡ o
      → stored_at s (committed s d o).1 j
        ≡ (if is_ok (committed s d o).0 && key == j then none else stored_at s d j)
  remove_lem s key d j b h none e = refl
  remove_lem s key d j b h (some c) e = rw (s.read_write, B.get-delete _ b key c e j, h)

  deleted_lem :
      (s : Slot V) (key : String) (d : Db) (j : String) (o : Option (B.Bucket (Stored V)))
      → s.read d ≡ o
      → stored_at s (deleted s key d o).1 j
        ≡ (if is_ok (deleted s key d o).0 && key == j then none else stored_at s d j)
  deleted_lem s key d j none h = refl
  deleted_lem s key d j (some b) h = elim (Bool-cases (is_some (B.get b key))) [
    | inl e ↦ rw e (remove_lem s key d j b h _ refl)
    | inr e ↦ rw e
  ]

  -- DeleteData leaves nothing under the key where it returns nil, changes nothing where it fails,
  -- and changes nothing else in the bucket.
  pub stored_at-delete_data :
      (s : Slot V) (key : String) (d : Db) (j : String)
      → stored_at s (delete_data s key d).1 j
        ≡ (if is_ok (delete_data s key d).0 && key == j then none else stored_at s d j)
  unfolding delete_data
  stored_at-delete_data s key d j = deleted_lem s key d j _ refl

  -- Every entry of the snapshot is what Get gives for its key.
  pub entries_All :
      (K : String → V → Type 0) (m : Dict V)
      → DistinctKeys m
      → ((key : String) (v : V) → lookup key m ≡ some v → K key v)
      → All (λ p. K p.0 p.1) m
  entries_All K [] distinct h = tt
  entries_All K ((key, v) ∷ m) distinct h = (
    h key v (rw eq_refl),
    entries_All K m distinct.1 (λ j w e. h j w (other j w e (Bool-cases (key == j)))),
  )
    where
      other :
          (j : String) (w : V)
          → lookup j m ≡ some w
          → (key == j ≡ true) ⊎ (key == j ≡ false)
          → lookup j ((key, v) ∷ m) ≡ some w
      other j w e (inl same) = cc (distinct.0, e, (eq_iff key j).0 same)
      other j w e (inr differ) = rw differ e

module _ ⦃B : Bolt⦄ {V : Type 0} where
  -- A write succeeds, or fails with the error of its transaction.
  pub set_data_ends :
      (s : Slot V) (key : String) (v : V) (d : Db)
      → ((set_data s key v d).0 ≡ ok tt)
        ⊎ ((set_data s key v d).0 ≡ err (wrap (fault write_failed)))
  unfolding set_data
  set_data_ends s key v d = ends _
    where
      ends :
          (o : Option (B.Bucket (Stored V)))
          → ((committed s d o).0 ≡ ok tt) ⊎ ((committed s d o).0 ≡ err (wrap (fault write_failed)))
      ends none = inr refl
      ends (some b) = inl refl

  pub found-fetched :
      (o : Option (B.Bucket (Stored V))) (key : String) {v : V}
      → found o key ≡ some (decodes v)
      → fetched o key ≡ ok v
  found-fetched none key h = cc
  found-fetched (some b) key h = rw h
