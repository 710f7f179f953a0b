-- ===== src/Examples/Users.antt =====
-- Users that are added and deleted.
use unify_em.Base.{◌≡◌, refl, some, [], ◌∷◌}
use unify_em.Schema.{UserCreateRequest}
use unify_em.Bolt.Listed.{listed}
use unify_em.Db.Bucket.{Db, decodes}
use unify_em.Db.Auth.{user_active}
use unify_em.Db.Auth.Login.{account}
use unify_em.Data.Users.{new_user, delete_user}
use unify_em.Data.Users.RoundTrip.{account-delete_user}
use unify_em.Examples.Fixtures.{file}

abbrev bob : UserCreateRequest
bob = record { user = "bob"; display_name = "Bob"; email = "bob@example.com" }

abbrev with_bob : Db
with_bob = record file {
  user_meta =
      some (record { items = ("bob", decodes (new_user 3 bob)) ∷ []; distinct = (refl, tt) });
}

account-delete_user_example :
    (account (delete_user "bob" with_bob).1 "bob" ≡ account with_bob "bob")
    × ((user_active "bob" (delete_user "bob" with_bob).1).0 ≡ (user_active "bob" with_bob).0)
account-delete_user_example = account-delete_user "bob" "bob" with_bob
