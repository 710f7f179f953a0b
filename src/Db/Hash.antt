-- ===== src/Db/Hash.antt =====
-- server/db/hash.go: GenerateHash and VerifyHash, the password hash of Db.Auth.
pub mod Verified
use Prim.Native.String.{◌++◌ as ◌+++◌}
use unify_em.Base.{
  String, ◌≡◌, refl, sym, ap, ◌∙◌, Bool, true, false, Option, none, some, some_inj, List, [], ◌∷◌,
  if◌then◌else◌, Error, fault, wrap, bad_hash, bad_data, hash_failed, Outcome, ok, err,
}
use unify_em.Base.Text.{split, has_code}
use unify_em.Db.Auth.{PasswordHash}

-- Raw base64, scrypt.Key and subtle.ConstantTimeCompare.
pub record HashLibrary : Type 1 where
  pub Bytes : Type 0
  pub encode : Bytes → String
  pub decode : String → Option Bytes
  pub key : String → Bytes → Option Bytes
  pub same_bytes : Bytes → Bytes → Bool
  -- a decoder reads back what the encoder writes, the alphabet has no dollar sign, and the comparison
  -- finds equal bytes equal
  pub decode-encode : (b : Bytes) → decode (encode b) ≡ some b
  pub no_dollar : (b : Bytes) → has_code b'$' (encode b) ≡ false
  pub same_refl : (b : Bytes) → same_bytes b b ≡ true

module _ (L : HashLibrary) where
  hashed_text : L.Bytes → Option L.Bytes → Option String
  hashed_text salt none = none
  hashed_text salt (some hash) = some (L.encode salt +++ ("$" +++ L.encode hash))

  -- GenerateHash, given what rand.Read draws; `none` is an error.
  unfoldable pub generate_hash : Option L.Bytes → String → Option String
  unfolding hashed_text
  generate_hash none pass = none
  generate_hash (some salt) pass = hashed_text salt (L.key pass salt)

  compared : L.Bytes → Option L.Bytes → Outcome Bool
  compared hash none = err (wrap (fault hash_failed))
  compared hash (some other) = ok (L.same_bytes hash other)

  with_parts : String → Option L.Bytes → Option L.Bytes → Outcome Bool
  unfolding compared
  with_parts pass none hash = err (wrap (fault bad_data))
  with_parts pass (some salt) none = err (wrap (fault bad_data))
  with_parts pass (some salt) (some hash) = compared hash (L.key pass salt)

  verified : String → List String → Outcome Bool
  unfolding with_parts
  verified pass [] = err (fault bad_hash)
  verified pass (salt ∷ []) = err (fault bad_hash)
  verified pass (salt ∷ hash ∷ []) = with_parts pass (L.decode salt) (L.decode hash)
  verified pass (salt ∷ hash ∷ other ∷ rest) = err (fault bad_hash)

  -- VerifyHash
  unfoldable pub verify_hash : String → String → Outcome Bool
  unfolding verified
  verify_hash pass encoded = verified pass (split b'$' encoded)
