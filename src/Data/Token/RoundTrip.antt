-- ===== src/Data/Token/RoundTrip.antt =====
-- A token that the server made is accepted for its purpose, while it lasts, and for no other.
use unify_em.Base.{
  ℕ, ◌+◌, ◌*◌, ◌/◌, ◌≤◌, ◌<◌, String, ◌≡◌, refl, sym, ap, ◌∙◌, Option, none, some, some_inj, true,
  ok, err, ◌==◌, if◌then◌else◌, fault, invalid_token, arith, inl, inr, ◌⊎◌,
}
use unify_em.Base.Inversion.{ok_inj}
use unify_em.Data.Config.{ServerConfig}
use unify_em.Data.Token.{
  Jwt, second, in_force, life_time, claims, expiry, signed, sign_for, create_token, check_purpose,
  validate_token,
}

-- A time at which a token of this life may still be used: before the whole second in which its life
-- ends, since the token holds the end in seconds; 0 is a life without an end.
abbrev pub Lasts : ℕ → ℕ → ℕ → Type 0
Lasts life now later =
    (now ≤ later) × ((life ≡ 0) ⊎ (later < ((now + life * (60 * second)) / second) * second))

Lasts-in_force :
    (now later : ℕ) (fresh subject purpose : String) (role life : ℕ)
    → Lasts life now later
    → in_force later (claims now fresh subject role purpose life) ≡ true
unfolding claims expiry
Lasts-in_force now later fresh subject purpose role life (h, inl forever) =
    rw forever (ground arith)
Lasts-in_force now later fresh subject purpose role life (h, inr soon) = ground arith

module _ (J : Jwt) where
  signed_ok : (o : Option String) (t : String) → signed o ≡ ok t → o ≡ some t
  unfolding signed
  signed_ok none t h = cc
  signed_ok (some s) t h = ap some (ok_inj h)

  module _ (conf : ServerConfig) (now : ℕ) (fresh subject : String) (role : ℕ)
      (purpose t : String) where
    created_for :
        (o : Option ℕ)
        → sign_for J conf now fresh subject role purpose o ≡ ok t
        → (life : ℕ) × (o ≡ some life)
          × (J.sign (claims now fresh subject role purpose life) ≡ some t)
    unfolding sign_for
    created_for none h = cc
    created_for (some life) h = (life, refl, signed_ok _ t h)

    created :
        create_token J conf now fresh subject role purpose ≡ ok t
        → (life : ℕ) × (life_time conf role purpose ≡ some life)
          × (J.sign (claims now fresh subject role purpose life) ≡ some t)
    unfolding create_token
    created h = created_for _ h

    -- A token that CreateToken returned is, at every later time before the whole second in which its
    -- life ends, accepted with its subject and role where it is presented for its own purpose, and
    -- refused for any other; where the configured life is 0, at every later time.
    pub validate-create_token :
        (later life : ℕ) (asked : String)
        → create_token J conf now fresh subject role purpose ≡ ok t
        → life_time conf role purpose ≡ some life
        → Lasts life now later
        → validate_token J later t asked
          ≡ (if purpose == asked then ok (subject, role) else err (fault invalid_token))
    unfolding validate_token check_purpose claims
    validate-create_token later life asked h l lasts =
        let (life', e, s) = created h in
        let same : life' ≡ life = some_inj (sym e ∙ l) in
        let s' : J.sign (claims now fresh subject role purpose life) ≡ some t = rw same at s in
        rw
          (J.parse-sign later _ t s'
            (Lasts-in_force now later fresh subject purpose role life lasts))
          refl
