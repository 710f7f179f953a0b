-- ===== src/Agent/Recovery/Credentials.antt =====
-- The credentials that SetServiceCredentials keeps are those that GetServiceCredentials returns.
use Prim.Native.Char.{code}
use Prim.Native.String.{String, ◌++◌ as ◌+++◌}
use text.Mathlib.TextLemmas.{cons-append, nil-append}
use unify_em.Base.{
  ◌≡◌, refl, ap, ◌∙◌, true, false, Option, none, some, ◌==◌, nat_eq, Bool-cases, inl, inr,
}
use unify_em.Base.Text.{has_code}
use unify_em.Config.Params.{get, set, other}
use unify_em.Config.Params.Admitted.{get-set_value}
use unify_em.Config.Params.Reads.{get-get}
use unify_em.Agent.Rounds.{Comms}
use unify_em.Agent.Recovery.{
  Machine, or_fail, cut, set_service_credentials, own_service_credentials,
}

single : (p : String) → ":" +++ p ≡ String.◌∷◌ ":" p
single p = cons-append ":" String.[] p ∙ ap (String.◌∷◌ ":") (nil-append p)

cut_lem : (u p : String) → has_code b':' u ≡ false → cut (u +++ (":" +++ p)) ≡ some (u, p)
cut_lem String.[] p h = ap cut (nil-append (":" +++ p) ∙ single p) ∙ refl
cut_lem (String.◌∷◌ ch u) p h = elim (Bool-cases (nat_eq (code ch) b':')) [
  | inl colon ↦ cc (let g : true ≡ false = rw colon at h in g)
  | inr plain ↦
      (ap cut (cons-append ch u (":" +++ p)) ∙ rw (plain, cut_lem u p (rw plain at h)) refl)
]

or_fail_lem : {A : Type 0} → (o : Option A) (c : Comms) → (or_fail o c).0 ≡ o
unfolding or_fail
or_fail_lem none c = refl
or_fail_lem (some a) c = refl

module _ (machine : Machine) where
  -- The state after the credentials were set.
  abbrev with_credentials : String → Comms → Comms
  with_credentials sealed c = record c {
    session = record c.session {
      agent_private =
          set "recovery_info_pending" (other "true")
            (get "ec_public_enc" c.session.agent_private).1;
    };
    credentials = sealed;
    credentials_pending = true;
  }

  set_lem :
      (username password sealed : String) (c : Comms)
      → machine.have_service_account ≡ true
      → ((get "ec_public_enc" c.session.agent_private).0 == "") ≡ false
      → machine.encrypt
          (username +++ (":" +++ password))
          (get "ec_public_enc" c.session.agent_private).0
        ≡ some sealed
      → set_service_credentials machine username password c ≡ (some tt, with_credentials sealed c)
  unfolding set_service_credentials
  set_lem username password sealed c account public encrypted =
      rw (account, public, encrypted, set_service_credentials) refl

  private_kept :
      (sealed : String) (c : Comms)
      → (get "ec_private_enc" (with_credentials sealed c).session.agent_private).0
        ≡ (get "ec_private_enc" c.session.agent_private).0
  private_kept sealed c =
      get-set_value "recovery_info_pending" "ec_private_enc" (other "true") _ tt
      ∙ get-get "ec_public_enc" "ec_private_enc" c.session.agent_private refl

  own_lem :
      (sealed plain : String) (c : Comms)
      → machine.have_service_account ≡ true
      → (c.credentials == "") ≡ false
      → ((get "ec_private_enc" c.session.agent_private).0 == "") ≡ false
      → machine.decrypt c.credentials (get "ec_private_enc" c.session.agent_private).0 ≡ some plain
      → (own_service_credentials machine c).0 ≡ cut plain
  unfolding own_service_credentials
  own_lem sealed plain c account full private decrypted =
      rw (account, full, private, decrypted, own_service_credentials) (or_fail_lem (cut plain) _)

  -- Where the agent's two keys are set, encryption of the account succeeds with a text that is not empty
  -- and decrypts to what was encrypted, SetServiceCredentials of a name without a colon and a password
  -- succeeds, and GetServiceCredentials then returns that name and that password.
  pub own-set_credentials :
      (username password sealed : String) (c : Comms)
      → machine.have_service_account ≡ true
      → ((get "ec_public_enc" c.session.agent_private).0 == "") ≡ false
      → ((get "ec_private_enc" c.session.agent_private).0 == "") ≡ false
      → machine.encrypt
          (username +++ (":" +++ password))
          (get "ec_public_enc" c.session.agent_private).0
        ≡ some sealed
      → machine.decrypt sealed (get "ec_private_enc" c.session.agent_private).0
        ≡ some (username +++ (":" +++ password))
      → (sealed == "") ≡ false
      → has_code b':' username ≡ false
      → ((set_service_credentials machine username password c).0 ≡ some tt)
        × ((own_service_credentials machine
              (set_service_credentials machine username password c).1).0
            ≡ some (username, password))
  own-set_credentials username password sealed c account public private encrypted decrypted full
        plain =
      rw (set_lem username password sealed c account public encrypted) (
        refl,
        own_lem sealed _ (with_credentials sealed c) account full
              (ap (λ k. k == "") (private_kept sealed c) ∙ private)
              (ap (machine.decrypt sealed) (private_kept sealed c) ∙ decrypted)
            ∙ cut_lem username password plain,
      )
