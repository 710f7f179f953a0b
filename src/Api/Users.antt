-- ===== src/Api/Users.antt =====
-- server/api/user.go.
use unify_em.Base.{
  ℕ, String, List, [], ◌∷◌, if◌then◌else◌, Exec, ◌>>=◌, pure, attempt, Result, value, error,
  root_cause,
}
use unify_em.Schema.{UserMeta, UserCreateRequest}
use unify_em.Bolt.{Bolt}
use unify_em.Db.Bucket.{Db}
use unify_em.Data.Users.{add_user, get_user_by_id, list_users, delete_user}
use unify_em.Api.Http.{
  HttpBody, text, caused, failure, user_list, user_created, user_deleted, JResponse, ok_with,
  refuse, names_missing, names_existing, with_body, with_param,
}

users_as : Result (List UserMeta) → JResponse
users_as (value users) = ok_with (user_list "ok" users)
users_as (error e) = refuse 500 "error retrieving users"

user_as : Result UserMeta → JResponse
user_as (value user) = ok_with (user_list "ok" (user ∷ []))
user_as (error e) =
    if names_missing (root_cause e)
    then record { http_code = 404; json_data = user_list "not found" [] }
    else record { http_code = 500; json_data = user_list "error" [] }

created_as : Result UserMeta → JResponse
created_as (value user) = ok_with (user_created user)
created_as (error e) = record {
  http_code = if names_existing (root_cause e) then 409 else 500;
  json_data = failure "error" (caused "" e);
}

deleted_as : Result (Unit {0}) → JResponse
deleted_as (value u) = ok_with user_deleted
deleted_as (error e) =
    if names_missing (root_cause e)
    then record { http_code = 404; json_data = failure "not found" (text "user not found") }
    else refuse 500 "user not found"

module _ ⦃B : Bolt⦄ where
  unfoldable pub get_users : Exec Db JResponse
  unfolding users_as
  get_users = do users ← attempt list_users; pure (users_as users)

  unfoldable pub get_user : String → Exec Db JResponse
  unfolding user_as with_param
  get_user id =
      with_param "user ID required" id
        λ id. do user ← attempt (get_user_by_id id); pure (user_as user)

  unfoldable pub post_user : ℕ → HttpBody UserCreateRequest → Exec Db JResponse
  unfolding created_as with_body
  post_user now body =
      with_body body λ u. do user ← attempt (add_user now u); pure (created_as user)

  unfoldable pub remove_user : String → Exec Db JResponse
  unfolding deleted_as with_param
  remove_user id =
      with_param "user ID required" id
        λ id. do gone ← attempt (delete_user id); pure (deleted_as gone)
