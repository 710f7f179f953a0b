-- ===== src/Bolt.antt =====
-- go.etcd.io/bbolt, as server/db uses it: a bucket of values under text keys. The package is not
-- part of the repository, so it is a parameter with its documented behaviour as laws. A write may
-- fail for any reason (an empty key, the disk); one that succeeds is seen by later reads.
pub mod Listed
use unify_em.Base.{
  String, ◌≡◌, Option, none, some, List, [], ◌∷◌, if◌then◌else◌, ◌==◌, lookup, Dict,
}

-- No key stands twice.
abbrev pub DistinctKeys {ℓ} : {V : Type ℓ} → Dict V → Type ℓ
DistinctKeys [] = Unit
DistinctKeys ((k, v) ∷ m) = (lookup k m ≡ none) × DistinctKeys m

pub record Bolt : Type 1 where
  pub Bucket : Type 0 → Type 0
  -- a bucket that CreateBucketIfNotExists has just made
  pub empty : {V : Type 0} → Bucket V
  -- bucket.Get
  pub get : {V : Type 0} → Bucket V → String → Option V
  -- bucket.Put and the commit of its transaction
  pub put : {V : Type 0} → Bucket V → String → V → Option (Bucket V)
  -- bucket.Delete and the commit of its transaction
  pub delete : {V : Type 0} → Bucket V → String → Option (Bucket V)
  -- what bucket.ForEach visits
  pub entries : {V : Type 0} → Bucket V → Dict V
  pub get-empty : (V : Type 0) (k : String) → get (empty {V = V}) k ≡ none
  pub get-put :
      (V : Type 0) (b : Bucket V) (k : String) (v : V) (c : Bucket V)
      → put b k v ≡ some c
      → (j : String) → get c j ≡ (if k == j then some v else get b j)
  pub get-delete :
      (V : Type 0) (b : Bucket V) (k : String) (c : Bucket V)
      → delete b k ≡ some c
      → (j : String) → get c j ≡ (if k == j then none else get b j)
  pub lookup-entries : (V : Type 0) (b : Bucket V) (k : String) → lookup k (entries b) ≡ get b k
  pub entries_distinct : (V : Type 0) (b : Bucket V) → DistinctKeys (entries b)
