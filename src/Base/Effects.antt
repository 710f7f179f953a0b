-- ===== src/Base/Effects.antt =====
-- How a Go call ends, and the code that threads a state through such calls.

-- The errors that the server's packages create, each by its text.
pub data Cause : Type 0 where
  key_not_found bucket_not_found bad_record write_failed : Cause
  agent_id_required request_id_required agent_mismatch : Cause
  account_disabled invalid_password bad_hash hash_failed user_exists : Cause
  invalid_token invalid_purpose signing_failed subject_disabled : Cause
  empty_reg_token wrong_reg_token bad_key : Cause
  no_credentials no_private_key decrypt_failed nil_data bad_data : Cause

-- `errors.New` makes a `fault`, `fmt.Errorf("…: %w", err)` wraps one.
pub data Error : Type 0 where
  fault : Cause → Error
  wrap : Error → Error

-- The error at the bottom of the chain; the texts above it are constant prefixes.
abbrev pub root_cause : Error → Cause
root_cause (fault c) = c
root_cause (wrap e) = root_cause e

-- A call returns a value, returns an error, or panics.
pub data Outcome {ℓ} (A : Type ℓ) : Type ℓ where
  ok : A → Outcome A
  err : Error → Outcome A
  panic : Outcome A

abbrev pub Exec {ℓ κ} : Type ℓ → Type κ → Type (ℓ ⊔ κ)
Exec S A = S → Outcome A × S

abbrev pub resume {ℓ κ μ} :
    {S : Type ℓ} {A : Type κ} {B : Type μ} → (A → Exec S B) → Outcome A × S → Outcome B × S
resume f (ok a, s) = f a s
resume f (err e, s) = (err e, s)
resume f (panic, s) = (panic, s)

infixl 5 ◌>>=◌ ◌>>◌
abbrev pub ◌>>=◌ {ℓ κ μ} :
    {S : Type ℓ} {A : Type κ} {B : Type μ} → Exec S A → (A → Exec S B) → Exec S B
◌>>=◌ m f s = resume f (m s)

abbrev pub ◌>>◌ {ℓ κ} : {S : Type ℓ} {B : Type κ} → Exec S (Unit {0}) → Exec S B → Exec S B
m >> k = m >>= λ _. k

abbrev pub pure {ℓ κ} : {S : Type ℓ} {A : Type κ} → A → Exec S A
pure a s = (ok a, s)

abbrev pub raise {ℓ κ} : {S : Type ℓ} {A : Type κ} → Error → Exec S A
raise e s = (err e, s)

abbrev pub lift {ℓ κ} : {S : Type ℓ} {A : Type κ} → Outcome A → Exec S A
lift r s = (r, s)

abbrev pub wrapped {ℓ} : {A : Type ℓ} → Outcome A → Outcome A
wrapped (ok a) = ok a
wrapped (err e) = err (wrap e)
wrapped panic = panic

-- `if err != nil { return fmt.Errorf("…: %w", err) }`
abbrev pub wrapping {ℓ κ} : {S : Type ℓ} {A : Type κ} → Exec S A → Exec S A
wrapping m s = let (r, s') = m s in (wrapped r, s')

-- What a caller that looks at `err` itself receives; a panic is not caught.
pub data Result {ℓ} (A : Type ℓ) : Type ℓ where
  value : A → Result A
  error : Error → Result A

abbrev pub settle {ℓ} : {A : Type ℓ} → Outcome A → Outcome (Result A)
settle (ok a) = ok (value a)
settle (err e) = ok (error e)
settle panic = panic

abbrev pub attempt {ℓ κ} : {S : Type ℓ} {A : Type κ} → Exec S A → Exec S (Result A)
attempt m s = let (r, s') = m s in (settle r, s')

-- `_ = f()`
abbrev pub ignore {ℓ κ} : {S : Type ℓ} {A : Type κ} → Exec S A → Exec S (Unit {0})
ignore m = attempt m >>= λ _. pure tt
