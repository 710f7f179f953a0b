-- ===== src/Db/Bucket.antt =====
-- server/db/db.go and server/db/bucket.go.
pub mod Laws
pub mod Every
pub mod Store
use unify_em.Base.{
  ℕ, String, ◌≡◌, refl, Bool, true, false, Option, none, some, List, [], ◌∷◌, if◌then◌else◌, Dict,
  Error, fault, wrap, Outcome, ok, err, panic, Exec, ◌>>=◌, ◌>>◌, pure, raise, key_not_found,
  bucket_not_found, bad_record, write_failed, is_some,
}
use unify_em.Schema.{AgentRequestRecord, AgentMeta, AgentEvent, UserMeta}
use unify_em.Bolt.{Bolt}

-- The bytes under a key: what they decode to, or bytes that are no such JSON.
pub data Stored (V : Type 0) : Type 0 where
  decodes : V → Stored V
  garbage : Stored V

pub record AuthInfo : Type 0 where
  pub active : Bool
  pub hashed_pass : String
  pub role : ℕ
  pub fail_count : ℕ
  pub last_update : ℕ
  pub last_auth : ℕ
  pub last_fail : ℕ

module _ ⦃B : Bolt⦄ where
  -- The five top-level buckets, each there or not. Events have a child bucket for each agent.
  pub record Db : Type 0 where
    pub auth : Option (B.Bucket (Stored AuthInfo))
    pub requests : Option (B.Bucket (Stored AgentRequestRecord))
    pub agent_meta : Option (B.Bucket (Stored AgentMeta))
    pub events : Option (B.Bucket (B.Bucket (Stored AgentEvent)))
    pub user_meta : Option (B.Bucket (Stored UserMeta))
    pub has_logger : Bool

  -- A bucket's name, as the place where the database keeps it.
  pub record Slot (V : Type 0) : Type 0 where
    pub read : Db → Option (B.Bucket (Stored V))
    pub write : B.Bucket (Stored V) → Db → Db
    pub read_write : (b : B.Bucket (Stored V)) (d : Db) → read (write b d) ≡ some b

  abbrev pub auth_bucket : Slot AuthInfo
  auth_bucket = record {
    read = λ d. d.auth;
    write = λ b d. record d { auth = some b };
    read_write = λ b d. refl;
  }

  abbrev pub requests_bucket : Slot AgentRequestRecord
  requests_bucket = record {
    read = λ d. d.requests;
    write = λ b d. record d { requests = some b };
    read_write = λ b d. refl;
  }

  abbrev pub agent_meta_bucket : Slot AgentMeta
  agent_meta_bucket = record {
    read = λ d. d.agent_meta;
    write = λ b d. record d { agent_meta = some b };
    read_write = λ b d. refl;
  }

  abbrev pub user_meta_bucket : Slot UserMeta
  user_meta_bucket = record {
    read = λ d. d.user_meta;
    write = λ b d. record d { user_meta = some b };
    read_write = λ b d. refl;
  }

  -- tx.CreateBucketIfNotExists
  abbrev pub or_empty : {V : Type 0} → Option (B.Bucket V) → B.Bucket V
  or_empty none = B.empty
  or_empty (some b) = b

  -- Open creates the buckets that the file lacks, and returns `&DB{db: db}`: no logger is kept.
  unfoldable pub open_db : Db → Db
  open_db file = record {
    auth = some (or_empty file.auth);
    requests = some (or_empty file.requests);
    agent_meta = some (or_empty file.agent_meta);
    events = some (or_empty file.events);
    user_meta = some (or_empty file.user_meta);
    has_logger = false;
  }

  -- A call of `d.logger`: on a nil interface it panics.
  unfoldable pub log : Exec Db (Unit {0})
  log d = if d.has_logger then (ok tt, d) else (panic, d)

abbrev pub required : Outcome Bool → Outcome (Unit {0})
required (ok true) = ok tt
required (ok false) = err (fault key_not_found)
required (err e) = err e
required panic = panic

module _ ⦃B : Bolt⦄ {V : Type 0} where
  -- How the transaction of a write ends.
  abbrev pub committed : Slot V → Db → Option (B.Bucket (Stored V)) → Outcome (Unit {0}) × Db
  committed s d none = (err (wrap (fault write_failed)), d)
  committed s d (some b) = (ok tt, s.write b d)

  unfoldable pub set_data : Slot V → String → V → Exec Db (Unit {0})
  set_data s key val d = committed s d (B.put (or_empty (s.read d)) key (decodes val))

  abbrev pub deserialized : Stored V → Outcome V
  deserialized (decodes v) = ok v
  deserialized garbage = err (wrap (fault bad_record))

  -- What GetData returns for the bytes that bucket.Get gave.
  abbrev pub decoded : Option (Stored V) → Outcome V
  decoded none = err (fault key_not_found)
  decoded (some bytes) = deserialized bytes

  abbrev pub fetched : Option (B.Bucket (Stored V)) → String → Outcome V
  fetched none key = err (fault bucket_not_found)
  fetched (some b) key = decoded (B.get b key)

  unfoldable pub get_data : Slot V → String → Exec Db V
  get_data s key d = (fetched (s.read d) key, d)

  abbrev pub present : Option (B.Bucket (Stored V)) → String → Outcome Bool
  present none key = err (fault bucket_not_found)
  present (some b) key = ok (is_some (B.get b key))

  unfoldable pub key_exists : Slot V → String → Exec Db Bool
  key_exists s key d = (present (s.read d) key, d)

  -- GetData with a nil result: only the key is looked for.
  unfoldable pub check_data : Slot V → String → Exec Db (Unit {0})
  check_data s key d = (required (present (s.read d) key), d)

  abbrev pub deleted : Slot V → String → Db → Option (B.Bucket (Stored V)) → Outcome (Unit {0}) × Db
  deleted s key d none = (err (fault bucket_not_found), d)
  deleted s key d (some b) =
      if is_some (B.get b key)
      then committed s d (B.delete b key)
      else (err (fault key_not_found), d)

  unfoldable pub delete_data : Slot V → String → Exec Db (Unit {0})
  delete_data s key d = deleted s key d (s.read d)

  -- The callback's writes go to the database, and the list is the snapshot of the read
  -- transaction. `acc` is what the callback's captured variable holds.
  unfoldable pub visit :
      {A : Type 0} → (String → Stored V → A → Exec Db A) → A → Dict (Stored V) → Exec Db A
  visit fn acc [] = pure acc
  visit fn acc ((key, val) ∷ rest) = do acc' ← fn key val acc; visit fn acc' rest

  unfoldable pub visit_bucket :
      {A : Type 0}
      → (String → Stored V → A → Exec Db A)
      → A
      → Option (B.Bucket (Stored V))
      → Exec Db A
  unfolding visit
  visit_bucket fn acc none = raise (fault bucket_not_found)
  visit_bucket fn acc (some b) = visit fn acc (B.entries b)

  unfoldable pub for_each :
      {A : Type 0} → Slot V → (String → Stored V → A → Exec Db A) → A → Exec Db A
  unfolding visit_bucket
  for_each s fn acc d = visit_bucket fn acc (s.read d) d
