-- ===== src/Agent/Try.antt =====
-- Code of the agent that threads a state and returns a value or an error. The text of an error is only
-- logged, so it is left out.
use unify_em.Base.{Option, none, some}

abbrev pub Try : Type 0 → Type 0 → Type 0
Try S A = S → Option A × S

abbrev pub continue_with :
    {S : Type 0} {A : Type 0} {B : Type 0} → (A → Try S B) → Option A × S → Option B × S
continue_with f (some a, s) = f a s
continue_with f (none, s) = (none, s)

infixl 5 ◌>>=◌ ◌>>◌
abbrev pub ◌>>=◌ : {S : Type 0} {A : Type 0} {B : Type 0} → Try S A → (A → Try S B) → Try S B
◌>>=◌ m f s = continue_with f (m s)

abbrev pub ◌>>◌ : {S : Type 0} {B : Type 0} → Try S (Unit {0}) → Try S B → Try S B
m >> k = m >>= λ _. k

abbrev pub pure : {S : Type 0} {A : Type 0} → A → Try S A
pure a s = (some a, s)

abbrev pub fail : {S : Type 0} {A : Type 0} → Try S A
fail s = (none, s)
