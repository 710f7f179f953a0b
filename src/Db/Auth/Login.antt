-- ===== src/Db/Auth/Login.antt =====
-- When CheckAuth accepts a password.
use unify_em.Base.{
  ℕ, String, ◌≡◌, refl, sym, ap, ◌∙◌, Bool, true, false, Option, none, some, ok, wrapped,
  Bool-cases, inl, inr,
}
use unify_em.Base.Inversion.{ok_inj, resume-eq-ok, wrapped-eq-ok}
use unify_em.Bolt.{Bolt}
use unify_em.Db.Bucket.{
  Db, AuthInfo, Stored, decodes, garbage, auth_bucket, set_data, get_data, fetched, decoded,
}
use unify_em.Db.Bucket.Laws.{stored_at, found}
use unify_em.Db.Keys.{validate_key}
use unify_em.Db.Auth.{PasswordHash, get_auth, record_attempt, verify_pass, check_auth}

module _ ⦃B : Bolt⦄ where
  fetched_ok :
      (o : Option (B.Bucket (Stored AuthInfo))) (key : String) {info : AuthInfo}
      → fetched o key ≡ ok info
      → found o key ≡ some (decodes info)
  fetched_ok none key h = cc
  fetched_ok (some b) key h = decoded_ok (B.get b key) h
    where
      decoded_ok :
          (s : Option (Stored AuthInfo)) {i : AuthInfo} → decoded s ≡ ok i → s ≡ some (decodes i)
      decoded_ok none e = cc
      decoded_ok (some garbage) e = cc
      decoded_ok (some (decodes j)) e = ap (λ x. some (decodes x)) (ok_inj e)

-- The account that a login with this ID reads.
abbrev pub account : ⦃B : Bolt⦄ → Db → String → Option (Stored AuthInfo)
account d id = stored_at auth_bucket d (validate_key id)

module _ ⦃B : Bolt⦄ (H : PasswordHash) (now : ℕ) (id pass : String) where
  recorded_ok :
      (info : AuthInfo) (good : Bool) (d : Db) {role : ℕ}
      → (record_attempt H now id info good d).0 ≡ ok role
      → (good ≡ true) × (role ≡ info.role)
  unfolding record_attempt
  recorded_ok info true d h =
      let (u, e, r) = resume-eq-ok _ (set_data auth_bucket _ _ d) h in (refl, sym (ok_inj r))
  recorded_ok info false d h =
      let (u, e, r) = resume-eq-ok _ (set_data auth_bucket _ _ d) h in cc (r)

  verified_ok :
      (info : AuthInfo) (d : Db) {role : ℕ}
      → (verify_pass H now id pass info d).0 ≡ ok role
      → (H.verify_hash pass info.hashed_pass ≡ ok true) × (role ≡ info.role)
  unfolding verify_pass
  verified_ok info d h =
      let (good, e, r) = resume-eq-ok _ (wrapped (H.verify_hash pass info.hashed_pass), d) h in
      let (yes_good, same) = recorded_ok info good d r in (wrapped-eq-ok _ e ∙ ap ok yes_good, same)

  -- A login that succeeds found an active account with a hash that the password matches, and returns
  -- the role of that account.
  pub login_sound :
      (d : Db) (role : ℕ)
      → (check_auth H now id pass d).0 ≡ ok role
      → (info : AuthInfo) × (account d id ≡ some (decodes info))
        × (info.active ≡ true)
        × (H.verify_hash pass info.hashed_pass ≡ ok true)
        × (role ≡ info.role)
  unfolding check_auth get_auth get_data
  login_sound d role h =
      let (info, e, r) = resume-eq-ok _ (fetched d.auth (validate_key id), d) h in
      elim (Bool-cases info.active) [
        | inl a ↦
            let (v, same) = verified_ok info d (rw a at r) in
            (info, fetched_ok d.auth (validate_key id) e, a, v, same)
        | inr a ↦ cc (let g : _ ≡ ok role = rw a at r in g)
      ]
