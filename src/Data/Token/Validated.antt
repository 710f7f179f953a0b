-- ===== src/Data/Token/Validated.antt =====
-- When ValidateToken accepts a token.
use unify_em.Base.{
  ℕ, String, ◌≡◌, refl, sym, true, Option, none, some, ok, err, ◌==◌, Bool-cases, inl, inr, ◌↔◌,
}
use unify_em.Base.Inversion.{ok_inj}
use unify_em.Data.Token.{Claims, Jwt, check_purpose, validate_token}

module _ (J : Jwt) (now : ℕ) (asked : String) where
  checked_ok :
      (o : Option Claims) (p : String × ℕ)
      → check_purpose J now asked o ≡ ok p
      → (c : Claims) × (o ≡ some c) × (c.purpose == asked ≡ true) × (p ≡ (c.subject, c.role))
  unfolding check_purpose
  checked_ok none p h = cc
  checked_ok (some c) p h = elim (Bool-cases (c.purpose == asked)) [
    | inl e ↦ (c, refl, e, sym (ok_inj (rw e at h)))
    | inr e ↦ cc (let g : err _ ≡ ok p = rw e at h in g)
  ]

  pub validate_token_iff :
      (token : String) (p : String × ℕ)
      → (validate_token J now token asked ≡ ok p) ↔ (
          (c : Claims) × (J.parse now token ≡ some c)
          × (c.purpose == asked ≡ true)
          × (p ≡ (c.subject, c.role)))
  unfolding validate_token check_purpose
  validate_token_iff token p =
      (λ h. checked_ok (J.parse now token) p h, λ h. rw (h.1, h.2, h.3) refl)
