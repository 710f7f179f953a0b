-- ===== src/Db/Hash/Verified.antt =====
-- The hash of a password accepts that password.
use Prim.Native.String.{◌++◌ as ◌+++◌}
use text.Mathlib.TextLemmas.{cons-append, nil-append}
use unify_em.Base.{String, ◌≡◌, refl, sym, ap, ◌∙◌, true, Option, none, some, some_inj, ok, [], ◌∷◌}
use unify_em.Base.Text.{split, split-two}
use unify_em.Db.Auth.{PasswordHash}
use unify_em.Db.Hash.{
  HashLibrary, hashed_text, generate_hash, verified, with_parts, compared, verify_hash,
}

module _ (L : HashLibrary) where
  dollar : (s : String) → "$" +++ s ≡ String.◌∷◌ "$" s
  dollar s = cons-append "$" String.[] s ∙ ap (String.◌∷◌ "$") (nil-append s)

  parts_lem :
      (salt hash : L.Bytes)
      → split b'$' (L.encode salt +++ ("$" +++ L.encode hash)) ≡ L.encode salt ∷ L.encode hash ∷ []
  parts_lem salt hash =
      ap (λ t. split b'$' (L.encode salt +++ t)) (dollar (L.encode hash))
      ∙ split-two "$" (L.encode salt) (L.encode hash) (L.no_dollar salt) (L.no_dollar hash)

  accepted :
      (salt hash : L.Bytes) (pass : String)
      → L.key pass salt ≡ some hash
      → verify_hash L pass (L.encode salt +++ ("$" +++ L.encode hash)) ≡ ok true
  unfolding verify_hash verified with_parts compared
  accepted salt hash pass e =
      ap (verified L pass) (parts_lem salt hash)
      ∙ rw (L.decode-encode salt, L.decode-encode hash, e, L.same_refl hash) refl

  derived :
      (salt : L.Bytes) (pass text : String) (o : Option L.Bytes)
      → L.key pass salt ≡ o
      → hashed_text L salt o ≡ some text
      → verify_hash L pass text ≡ ok true
  unfolding hashed_text
  derived salt pass text none e h = cc
  derived salt pass text (some hash) e h =
      ap (verify_hash L pass) (sym (some_inj h)) ∙ accepted salt hash pass e

  -- VerifyHash accepts a password against each text that GenerateHash makes of it, whatever salt is
  -- drawn.
  pub verify-generate_hash :
      (salt : Option L.Bytes) (pass text : String)
      → generate_hash L salt pass ≡ some text
      → verify_hash L pass text ≡ ok true
  unfolding generate_hash
  verify-generate_hash none pass text h = cc
  verify-generate_hash (some salt) pass text h = derived salt pass text (L.key pass salt) refl h

  -- The hash that the accounts use.
  abbrev pub scrypt_hash : PasswordHash
  scrypt_hash = record {
    Salt = Option L.Bytes;
    generate_hash = generate_hash L;
    verify_hash = verify_hash L;
    verify-generate = verify-generate_hash;
  }
