-- ===== src/Examples/Accounts.antt =====
-- Accounts that are set, logged in to, and refused.
use unify_em.Base.{
  String, ◌≡◌, refl, true, some, [], ◌∷◌, ok, err, fault, wrap, ◌==◌, if◌then◌else◌, write_failed,
  invalid_password, ◌⊎◌,
}
use unify_em.Bolt.Listed.{listed}
use unify_em.Db.Bucket.{Db, AuthInfo, decodes, set_data, get_data}
use unify_em.Db.Keys.{validate_key}
use unify_em.Db.Auth.{set_auth, check_auth, new_auth_info}
use unify_em.Db.Auth.Login.{account, login_sound}
use unify_em.Db.Auth.Accounts.{login-set_auth, wrong_password_lem}
use unify_em.Examples.Fixtures.{plain, file}

abbrev bob : AuthInfo
bob = record new_auth_info { active = true; hashed_pass = "pass"; role = 5 }

abbrev with_bob : Db
with_bob = record file {
  auth = some (record { items = ("bob", decodes bob) ∷ []; distinct = (refl, tt) });
}

login_sound_example :
    (info : AuthInfo) × (account with_bob "bob" ≡ some (decodes info))
    × (info.active ≡ true)
    × (plain.verify_hash "pass" info.hashed_pass ≡ ok true)
    × (5 ≡ info.role)
unfolding check_auth set_data get_data validate_key
login_sound_example = login_sound plain 9 "bob" "pass" with_bob 5 refl

-- "b.ob" is another name of the account "bob".
login-set_auth_example :
    ((check_auth plain 9 "b.ob" "pass" (set_auth plain 8 tt "bob" "pass" 5 file).1).0 ≡ ok 5)
    ⊎ ((check_auth plain 9 "b.ob" "pass" (set_auth plain 8 tt "bob" "pass" 5 file).1).0
        ≡ err (wrap (fault write_failed)))
unfolding set_auth set_data validate_key
login-set_auth_example = login-set_auth plain 8 9 tt "bob" "b.ob" "pass" 5 file refl refl

wrong_password_lem_example :
    ((check_auth plain 9 "bob" "word" with_bob).0 ≡ err (fault invalid_password))
      × ((other : String)
          → account (check_auth plain 9 "bob" "word" with_bob).1 other ≡ (
              if validate_key "bob" == validate_key other
              then some (decodes (record bob { fail_count = 1; last_fail = 9 }))
              else account with_bob other))
    ⊎ ((check_auth plain 9 "bob" "word" with_bob).0 ≡ err (wrap (fault write_failed)))
      × ((other : String)
          → account (check_auth plain 9 "bob" "word" with_bob).1 other ≡ account with_bob other)
unfolding validate_key
wrong_password_lem_example = wrong_password_lem plain 9 "bob" "word" with_bob bob refl refl refl
