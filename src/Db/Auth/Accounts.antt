-- ===== src/Db/Auth/Accounts.antt =====
-- What SetAuth and CheckAuth leave in the bucket of accounts.
use unify_em.Base.{
  ℕ, ◌+◌, String, ◌≡◌, refl, ap, ◌∙◌, Bool, true, false, Option, none, some, if◌then◌else◌, ok, err,
  wrap, fault, inl, inr, ◌⊎◌, ◌==◌, write_failed, invalid_password, eq_refl, ◌&&◌,
}
use unify_em.Base.Inversion.{resume-ok, resume-err, wrapped-eq-ok}
use unify_em.Bolt.{Bolt}
use unify_em.Db.Bucket.{Db, AuthInfo, decodes, auth_bucket, set_data, get_data}
use unify_em.Db.Bucket.Laws.{stored_at, stored_at-set_data, is_ok, found-fetched, set_data_ends}
use unify_em.Db.Keys.{validate_key}
use unify_em.Db.Auth.{
  PasswordHash, new_auth_info, get_auth, store_auth, set_auth, record_attempt, verify_pass,
  check_auth,
}
use unify_em.Db.Auth.Login.{account}

module _ ⦃B : Bolt⦄ (H : PasswordHash) where
  -- An account that is active and has a hash which the password can be compared with.
  check_auth_known :
      (now : ℕ) (id pass : String) (d : Db) (info : AuthInfo) (good : Bool)
      → account d id ≡ some (decodes info)
      → info.active ≡ true
      → H.verify_hash pass info.hashed_pass ≡ ok good
      → check_auth H now id pass d ≡ record_attempt H now id info good d
  unfolding check_auth get_auth get_data verify_pass
  check_auth_known now id pass d info good h a v =
      rw (found-fetched d.auth (validate_key id) h, a, v)

  abbrev accepted : ℕ → AuthInfo → AuthInfo
  accepted now info = record info { fail_count = 0; last_auth = now }

  accepted_ends :
      (now : ℕ) (id : String) (info : AuthInfo) (d : Db)
      → ((record_attempt H now id info true d).0 ≡ ok info.role)
        ⊎ ((record_attempt H now id info true d).0 ≡ err (wrap (fault write_failed)))
  unfolding record_attempt
  accepted_ends now id info d =
      let w = set_data auth_bucket (validate_key id) (accepted now info) d in
      elim (set_data_ends auth_bucket (validate_key id) (accepted now info) d) [
        | inl e ↦ inl (ap (λ p. p.0) (resume-ok _ w e))
        | inr e ↦ inr (ap (λ p. p.0) (resume-err _ w e))
      ]

  abbrev enabled : ℕ → String → ℕ → AuthInfo
  enabled now hash role = record new_auth_info {
    active = true;
    hashed_pass = hash;
    role = role;
    last_update = now;
  }

  stored_ok :
      (now : ℕ) (id : String) (role : ℕ) (o : Option String) (d : Db)
      → (store_auth H now id role o d).0 ≡ ok tt
      → (hash : String) × (o ≡ some hash)
        × (account (store_auth H now id role o d).1 id ≡ some (decodes (enabled now hash role)))
  unfolding store_auth
  stored_ok now id role none d h = cc
  stored_ok now id role (some hash) d h = (
    hash,
    refl,
    stored_at-set_data auth_bucket (validate_key id) (enabled now hash role) d (validate_key id)
        ∙ rw (wrapped-eq-ok _ h, eq_refl) refl,
  )

  -- After a SetAuth that succeeds, a login with the same password, under the same ID or another one that
  -- validateKey maps to the same key, is given the role that was set; the only other end is a failure
  -- to write the login's time.
  pub login-set_auth :
      (now later : ℕ) (salt : H.Salt) (id other pass : String) (role : ℕ) (d : Db)
      → validate_key other ≡ validate_key id
      → (set_auth H now salt id pass role d).0 ≡ ok tt
      → ((check_auth H later other pass (set_auth H now salt id pass role d).1).0 ≡ ok role)
        ⊎ ((check_auth H later other pass (set_auth H now salt id pass role d).1).0
            ≡ err (wrap (fault write_failed)))
  unfolding set_auth
  login-set_auth now later salt id other pass role d same h =
      let (hash, g, st) = stored_ok now id role (H.generate_hash salt pass) d h in
      let d' = (store_auth H now id role (H.generate_hash salt pass) d).1 in
      let e : check_auth H later other pass d'
          ≡ record_attempt H later other (enabled now hash role) true d' =
        check_auth_known later other pass d' (enabled now hash role) true
          (ap (λ k. stored_at auth_bucket d' k) same ∙ st) refl
          (H.verify-generate salt pass hash g) in
      rw e (accepted_ends later other (enabled now hash role) d')

  abbrev rejected : ℕ → AuthInfo → AuthInfo
  rejected now info = record info { fail_count = info.fail_count + 1; last_fail = now }

  -- A login whose password does not match never succeeds. Where it says so, the account's failures are
  -- counted up by one and the time of the last one is `now`; the rest of it, and every account under
  -- another key, is as before. The other end is a failure to write, which changes nothing.
  pub wrong_password_lem :
      (now : ℕ) (id pass : String) (d : Db) (info : AuthInfo)
      → account d id ≡ some (decodes info)
      → info.active ≡ true
      → H.verify_hash pass info.hashed_pass ≡ ok false
      → ((check_auth H now id pass d).0 ≡ err (fault invalid_password))
          × ((other : String)
              → account (check_auth H now id pass d).1 other ≡ (
                  if validate_key id == validate_key other
                  then some
                      (decodes (record info { fail_count = info.fail_count + 1; last_fail = now }))
                  else account d other))
        ⊎ ((check_auth H now id pass d).0 ≡ err (wrap (fault write_failed)))
          × ((other : String) → account (check_auth H now id pass d).1 other ≡ account d other)
  unfolding record_attempt
  wrong_password_lem now id pass d info h a v =
      let w = set_data auth_bucket (validate_key id) (rejected now info) d in
      let at_key : (other : String)
          → account w.1 other ≡ (
              if is_ok w.0 && validate_key id == validate_key other
              then some (decodes (rejected now info))
              else account d other) =
        λ other.
          stored_at-set_data auth_bucket (validate_key id) (rejected now info) d
            (validate_key other) in
      rw (check_auth_known now id pass d info false h a v)
        (elim (set_data_ends auth_bucket (validate_key id) (rejected now info) d) [
          | inl e ↦ inl (rw (resume-ok _ w e) (refl, λ other. at_key other ∙ rw e refl))
          | inr e ↦ inr (rw (resume-err _ w e) (refl, λ other. at_key other ∙ rw e refl))
        ])
