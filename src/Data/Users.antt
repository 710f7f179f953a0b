-- ===== src/Data/Users.antt =====
-- server/data/users.go.
pub mod RoundTrip
use unify_em.Base.{
  ℕ, String, ◌≡◌, Bool, true, false, Option, none, some, List, [], ◌∷◌, ◌++◌, if◌then◌else◌, Exec,
  ◌>>=◌, ◌>>◌, pure, raise, attempt, Result, value, error, Error, fault, wrap, bad_record,
  user_exists, Cause, key_not_found,
}
use unify_em.Schema.{UserMeta, UserCreateRequest}
use unify_em.Bolt.{Bolt}
use unify_em.Db.Bucket.{
  Db, Stored, decodes, garbage, user_meta_bucket, set_data, get_data, delete_data, for_each,
}

abbrev pub new_user : ℕ → UserCreateRequest → UserMeta
new_user now u = record {
  user = u.user;
  display_name = u.display_name;
  email = u.email;
  created_at = now;
  last_updated = now;
}

-- err.Error() == "key not found": an error with a prefix has another text
abbrev pub is_missing : Error → Bool
is_missing (fault key_not_found) = true
is_missing _ = false

module _ ⦃B : Bolt⦄ where
  unfoldable pub get_user_by_id : String → Exec Db UserMeta
  get_user_by_id user = get_data user_meta_bucket user

  add_after : ℕ → UserCreateRequest → Result UserMeta → Exec Db UserMeta
  add_after now u (value existing) = raise (fault user_exists)
  add_after now u (error e) = do
    set_data user_meta_bucket u.user (new_user now u)
    pure (new_user now u)

  unfoldable pub add_user : ℕ → UserCreateRequest → Exec Db UserMeta
  unfolding add_after get_user_by_id
  add_user now u = do existing ← attempt (get_user_by_id u.user); add_after now u existing

  unfoldable pub exists_after : Result UserMeta → Exec Db Bool
  exists_after (value meta) = pure true
  exists_after (error e) = if is_missing e then pure false else raise e

  unfoldable pub check_user_exists : String → Exec Db Bool
  unfolding exists_after get_user_by_id
  check_user_exists user = do found ← attempt (get_user_by_id user); exists_after found

  unfoldable pub delete_user : String → Exec Db (Unit {0})
  delete_user user = delete_data user_meta_bucket user

  listed_user : String → Stored UserMeta → List UserMeta → Exec Db (List UserMeta)
  listed_user key (decodes meta) acc = pure (acc ++ meta ∷ [])
  listed_user key garbage acc = raise (fault bad_record)

  unfoldable pub list_users : Exec Db (List UserMeta)
  unfolding listed_user for_each
  list_users = for_each user_meta_bucket listed_user []
