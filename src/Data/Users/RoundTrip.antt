-- ===== src/Data/Users/RoundTrip.antt =====
-- A user that was added is there, once, until it is deleted.
use unify_em.Base.{
  ℕ, String, ◌≡◌, refl, sym, ap, ◌∙◌, Option, none, some, true, false, ok, err, panic, ◌==◌,
  if◌then◌else◌, Outcome, fault, Bool-cases, inl, inr, user_exists, eq_refl, is_some, key_not_found,
  Result, value, error, attempt, settle, pure, resume,
}
use unify_em.Base.Inversion.{ok_inj, resume-eq-ok, resume-ok}
use unify_em.Schema.{UserMeta, UserCreateRequest}
use unify_em.Bolt.{Bolt}
use unify_em.Db.Bucket.{
  Db, AuthInfo, Stored, decodes, user_meta_bucket, set_data, get_data, delete_data, deleted,
  committed, fetched,
}
use unify_em.Db.Bucket.Laws.{
  stored_at, found, stored_at-set_data, stored_at-delete_data, found-fetched,
}
use unify_em.Db.Keys.{validate_key}
use unify_em.Db.Auth.{user_active, get_auth, user_active_of}
use unify_em.Db.Auth.Login.{account}
use unify_em.Data.Users.{
  new_user, get_user_by_id, add_after, add_user, exists_after, check_user_exists, delete_user,
}

module _ ⦃B : Bolt⦄ where
  -- AddUser of an ID that is taken is an error, and changes nothing.
  pub add_user_taken :
      (now : ℕ) (u : UserCreateRequest) (old : UserMeta) (d : Db)
      → stored_at user_meta_bucket d u.user ≡ some (decodes old)
      → add_user now u d ≡ (err (fault user_exists), d)
  unfolding add_user get_user_by_id get_data add_after
  add_user_taken now u old d h = rw (found-fetched d.user_meta u.user h) refl

  added :
      (now : ℕ) (u : UserCreateRequest) (r : Result UserMeta) (d : Db) (m : UserMeta)
      → (add_after now u r d).0 ≡ ok m
      → (m ≡ new_user now u)
        × ((j : String)
            → stored_at user_meta_bucket (add_after now u r d).1 j ≡ (
                if u.user == j
                then some (decodes (new_user now u))
                else stored_at user_meta_bucket d j))
  unfolding add_after
  added now u (value old) d m h = cc
  added now u (error e) d m h =
      let w = set_data user_meta_bucket u.user (new_user now u) d in
      let (x, ok_w, h1) = resume-eq-ok _ w h in
      (
        sym (ok_inj h1),
        λ j.
            ap (λ s. stored_at user_meta_bucket s j) (ap (λ p. p.1) (resume-ok _ w ok_w))
            ∙ stored_at-set_data user_meta_bucket u.user (new_user now u) d j
            ∙ rw ok_w refl,
      )

  present_exists :
      (user : String) (m : UserMeta) (d : Db)
      → stored_at user_meta_bucket d user ≡ some (decodes m)
      → check_user_exists user d ≡ (ok true, d)
  unfolding check_user_exists get_user_by_id get_data exists_after
  present_exists user m d h = rw (found-fetched d.user_meta user h) refl

  -- After an AddUser that succeeds the user is there, with the request's fields and the time as its
  -- creation, and every other user is as before.
  pub exists-add_user :
      (now : ℕ) (u : UserCreateRequest) (m : UserMeta) (d : Db)
      → (add_user now u d).0 ≡ ok m
      → ((check_user_exists u.user (add_user now u d).1).0 ≡ ok true)
        × ((get_user_by_id u.user (add_user now u d).1).0 ≡ ok (new_user now u))
        × ((j : String)
            → u.user == j ≡ false
            → stored_at user_meta_bucket (add_user now u d).1 j ≡ stored_at user_meta_bucket d j)
  unfolding add_user get_user_by_id get_data
  exists-add_user now u m d h =
      let f = add_after now u in
      let p = attempt (get_data user_meta_bucket u.user) d in
      let (r, e, h1) = resume-eq-ok f p h in
      let (same, at_key) = added now u r d m h1 in
      let there : stored_at user_meta_bucket (add_after now u r d).1 u.user
          ≡ some (decodes (new_user now u)) =
        at_key u.user ∙ rw eq_refl refl in
      rw (resume-ok f p e) (
        ap (λ q. q.0) (present_exists u.user (new_user now u) (add_after now u r d).1 there),
        found-fetched (add_after now u r d).1.user_meta u.user there,
        λ j other. at_key j ∙ rw other refl,
      )

  still_committed :
      (d : Db) (o : Option (B.Bucket (Stored UserMeta)))
      → (committed user_meta_bucket d o).0 ≡ ok tt
      → is_some (committed user_meta_bucket d o).1.user_meta ≡ true
  still_committed d none h = cc
  still_committed d (some b) h = refl

  still_bucket :
      (user : String) (d : Db) (o : Option (B.Bucket (Stored UserMeta)))
      → (deleted user_meta_bucket user d o).0 ≡ ok tt
      → is_some (deleted user_meta_bucket user d o).1.user_meta ≡ true
  still_bucket user d none h = cc
  still_bucket user d (some b) h = elim (Bool-cases (is_some (B.get b user))) [
    | inl e ↦ rw e (still_committed d (B.delete b user) (rw e at h))
    | inr e ↦ cc (let g : err _ ≡ ok tt = rw e at h in g)
  ]

  missing_lem :
      (o : Option (B.Bucket (Stored UserMeta))) (user : String)
      → is_some o ≡ true
      → found o user ≡ none
      → fetched o user ≡ err (fault key_not_found)
  missing_lem none user h e = cc
  missing_lem (some b) user h e = rw e refl

  -- After a DeleteUser that succeeds the user is not there.
  pub exists-delete_user :
      (user : String) (d : Db)
      → (delete_user user d).0 ≡ ok tt
      → (check_user_exists user (delete_user user d).1).0 ≡ ok false
  unfolding delete_user check_user_exists get_user_by_id get_data delete_data exists_after
  exists-delete_user user d h =
      let e = still_bucket user d d.user_meta h in
      rw
        (missing_lem (delete_data user_meta_bucket user d).1.user_meta user e
          (stored_at-delete_data user_meta_bucket user d user ∙ rw (h, eq_refl) refl))
        refl

  same_auth :
      (user : String) (d : Db) (o : Option (B.Bucket (Stored UserMeta)))
      → (deleted user_meta_bucket user d o).1.auth ≡ d.auth
  same_auth user d none = refl
  same_auth user d (some b) = elim (Bool-cases (is_some (B.get b user))) [
    | inl e ↦ rw e (same_committed (B.delete b user))
    | inr e ↦ rw e refl
  ]
    where
      same_committed :
          (o : Option (B.Bucket (Stored UserMeta)))
          → (committed user_meta_bucket d o).1.auth ≡ d.auth
      same_committed none = refl
      same_committed (some b) = refl

  looked_up :
      (o : Outcome AuthInfo) (d e : Db)
      → (resume (λ r. pure (user_active_of r)) (settle o, d)).0
        ≡ (resume (λ r. pure (user_active_of r)) (settle o, e)).0
  looked_up (ok a) d e = refl
  looked_up (err x) d e = refl
  looked_up panic d e = refl

  -- DeleteUser leaves the accounts alone: every account, that of the deleted user too, is stored as
  -- before, and the user's ID counts as active in token refreshes exactly if it did before.
  pub account-delete_user :
      (user id : String) (d : Db)
      → (account (delete_user user d).1 id ≡ account d id)
        × ((user_active id (delete_user user d).1).0 ≡ (user_active id d).0)
  unfolding delete_user delete_data user_active get_auth get_data
  account-delete_user user id d =
      let same : (delete_user user d).1.auth ≡ d.auth = same_auth user d d.user_meta in
      (
        ap (λ o. found o (validate_key id)) same,
        looked_up (fetched (delete_user user d).1.auth (validate_key id)) (delete_user user d).1 d
            ∙ ap
                (λ o.
                  (resume (λ r. pure (user_active_of r))
                    (settle (fetched o (validate_key id)), d)).0)
                same,
      )
