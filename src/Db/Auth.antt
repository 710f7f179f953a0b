-- ===== src/Db/Auth.antt =====
-- server/db/auth.go. The hash of server/db/hash.go is an interface here: its salt comes from the
-- operating system, and scrypt from another package.
pub mod Login
pub mod Accounts
use unify_em.Base.{
  ℕ, ◌+◌, String, ◌≡◌, Bool, true, false, if◌then◌else◌, Error, fault, wrap, Outcome, ok, err,
  panic, Exec, ◌>>=◌, ◌>>◌, pure, raise, lift, wrapping, attempt, wrapped, Result, value, error,
  Option, none, some, account_disabled, invalid_password, hash_failed,
}
use unify_em.Bolt.{Bolt}
use unify_em.Db.Bucket.{Db, AuthInfo, auth_bucket, set_data, get_data, delete_data}
use unify_em.Db.Keys.{validate_key}

-- GenerateHash with its random salt, and VerifyHash.
pub record PasswordHash : Type 1 where
  pub Salt : Type 0
  pub generate_hash : Salt → String → Option String
  pub verify_hash : String → String → Outcome Bool
  -- the password that was hashed is accepted
  pub verify-generate :
      (salt : Salt) (pass hash : String)
      → generate_hash salt pass ≡ some hash
      → verify_hash pass hash ≡ ok true

abbrev pub new_auth_info : AuthInfo
new_auth_info = record {
  active = false;
  hashed_pass = "";
  role = 0;
  fail_count = 0;
  last_update = 0;
  last_auth = 0;
  last_fail = 0;
}

abbrev pub user_active_of : Result AuthInfo → Bool
user_active_of (value info) = info.active
user_active_of (error e) = false

module _ ⦃B : Bolt⦄ where
  -- The test for "key not found" compares with a fresh error value and never holds, so every
  -- error is returned as it is.
  unfoldable pub get_auth : String → Exec Db AuthInfo
  get_auth id = get_data auth_bucket (validate_key id)

  unfoldable pub delete_auth : String → Exec Db (Unit {0})
  delete_auth id = delete_data auth_bucket (validate_key id)

  unfoldable pub user_active : String → Exec Db Bool
  unfolding get_auth
  user_active id = do r ← attempt (get_auth id); pure (user_active_of r)

module _ ⦃B : Bolt⦄ (H : PasswordHash) where
  store_auth : ℕ → String → ℕ → Option String → Exec Db (Unit {0})
  store_auth now id role none = raise (wrap (fault hash_failed))
  store_auth now id role (some hash) = wrapping (
      set_data auth_bucket (validate_key id) (record new_auth_info {
        active = true;
        hashed_pass = hash;
        role = role;
        last_update = now;
      }))

  unfoldable pub set_auth : ℕ → H.Salt → String → String → ℕ → Exec Db (Unit {0})
  unfolding store_auth
  set_auth now salt id pass role = store_auth now id role (H.generate_hash salt pass)

  -- What CheckAuth does once the hash is compared.
  record_attempt : ℕ → String → AuthInfo → Bool → Exec Db ℕ
  record_attempt now id info true = do
    set_data auth_bucket (validate_key id) (record info { fail_count = 0; last_auth = now })
    pure info.role
  record_attempt now id info false = do
    set_data auth_bucket (validate_key id)
        (record info { fail_count = info.fail_count + 1; last_fail = now })
    raise (fault invalid_password)

  verify_pass : ℕ → String → String → AuthInfo → Exec Db ℕ
  unfolding record_attempt
  verify_pass now id pass info = do
    good ← lift (wrapped (H.verify_hash pass info.hashed_pass))
    record_attempt now id info good

  unfoldable pub check_auth : ℕ → String → String → Exec Db ℕ
  unfolding verify_pass get_auth
  check_auth now id pass = do
    info ← get_auth id
    if info.active then verify_pass now id pass info else raise (fault account_disabled)
