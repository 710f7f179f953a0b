-- ===== src/Examples/KnownTokens.antt =====
-- A signer that knows two tokens: the laws of `Jwt` can be met.
use mathlib.Core.Path.{subst}
use unify_em.Base.{
  ◌⊎◌, ℕ, String, ◌≡◌, refl, sym, ap, Bool, true, false, ◌&&◌, Option, none, some, some_inj,
  if◌then◌else◌, ◌==◌, nat_eq, arith, eq_iff, Bool-cases, inl, inr,
}
use unify_em.Bolt.Listed.{listed}
use unify_em.Data.Token.{Claims, Jwt, in_force}

abbrev pub access_claims : Claims
access_claims = record {
  subject = "A-1";
  issued_at = 1000;
  not_before = 700;
  expires_at = some 1900;
  token_id = "T-1";
  role = 2;
  purpose = "access";
}

abbrev pub refresh_claims : Claims
refresh_claims = record {
  subject = "A-1";
  issued_at = 1000;
  not_before = 700;
  expires_at = some 4600;
  token_id = "T-2";
  role = 2;
  purpose = "refresh";
}

-- the time of `issued_at`, in nanoseconds
abbrev pub start : ℕ
start = 1000000000000

abbrev pub same_expiry : Option ℕ → Option ℕ → Bool
same_expiry none none = true
same_expiry (some s) (some t) = nat_eq s t
same_expiry _ _ = false

pub same_expiry_lem : (s t : Option ℕ) → same_expiry s t ≡ true → s ≡ t
same_expiry_lem none none h = refl
same_expiry_lem (some s) (some t) h = ap some (ground arith)
same_expiry_lem none (some t) h = cc
same_expiry_lem (some s) none h = cc

abbrev pub same : Claims → Claims → Bool
same c d =
    c.subject == d.subject
    && nat_eq c.issued_at d.issued_at
    && nat_eq c.not_before d.not_before
    && same_expiry c.expires_at d.expires_at
    && c.token_id == d.token_id
    && nat_eq c.role d.role
    && c.purpose == d.purpose

pub same_lem : (c d : Claims) → same c d ≡ true → c ≡ d
same_lem c d h =
    let subject : c.subject == d.subject ≡ true = ground arith in
    let issued : c.issued_at ≡ d.issued_at = ground arith in
    let before : c.not_before ≡ d.not_before = ground arith in
    let expires : same_expiry c.expires_at d.expires_at ≡ true = ground arith in
    let token : c.token_id == d.token_id ≡ true = ground arith in
    let role : c.role ≡ d.role = ground arith in
    let purpose : c.purpose == d.purpose ≡ true = ground arith in
    λ i. record {
      subject = (eq_iff c.subject d.subject).0 subject i;
      issued_at = issued i;
      not_before = before i;
      expires_at = same_expiry_lem c.expires_at d.expires_at expires i;
      token_id = (eq_iff c.token_id d.token_id).0 token i;
      role = role i;
      purpose = (eq_iff c.purpose d.purpose).0 purpose i;
    }

-- A signer that knows these two tokens.
abbrev pub sign_known : Claims → Option String
sign_known c =
    if same c access_claims then some "a" else if same c refresh_claims then some "r" else none

abbrev pub checked : ℕ → Claims → Option Claims
checked now c = if in_force now c then some c else none

abbrev pub parse_known : ℕ → String → Option Claims
parse_known now t =
    if t == "a"
    then checked now access_claims
    else if t == "r"
    then checked now refresh_claims
    else none

pub known :
    (c : Claims) (t : String)
    → sign_known c ≡ some t
    → ((c ≡ access_claims) × (t ≡ "a")) ⊎ ((c ≡ refresh_claims) × (t ≡ "r"))
known c t h = elim (Bool-cases (same c access_claims)) [
  | inl e ↦ inl (same_lem c access_claims e, sym (some_inj (rw e at h)))
  | inr e ↦ elim (Bool-cases (same c refresh_claims)) [
    | inl f ↦ inr (same_lem c refresh_claims f, sym (some_inj (rw (e, f) at h)))
    | inr f ↦ cc (let g : none ≡ some t = rw (e, f) at h in g)
  ]
]

pub checked_lem :
    (now : ℕ) (c d : Claims) → checked now c ≡ some d → (c ≡ d) × (in_force now c ≡ true)
checked_lem now c d h = elim (Bool-cases (in_force now c)) [
  | inl e ↦ (some_inj (rw e at h), e)
  | inr e ↦ cc (let g : none ≡ some d = rw e at h in g)
]

pub parsed :
    (now : ℕ) (t : String) (c : Claims)
    → parse_known now t ≡ some c
    → (sign_known c ≡ some t) × (in_force now c ≡ true)
parsed now t c h = elim (Bool-cases (t == "a")) [
  | inl e ↦
      let (f, v) = checked_lem now access_claims c (rw e at h) in
      (
        subst (λ x. sign_known x ≡ some t) f (ap some (sym ((eq_iff t "a").0 e))),
        subst (λ x. in_force now x ≡ true) f v,
      )
  | inr e ↦ elim (Bool-cases (t == "r")) [
    | inl e' ↦
        let (f, v) = checked_lem now refresh_claims c (rw (e, e') at h) in
        (
          subst (λ x. sign_known x ≡ some t) f (ap some (sym ((eq_iff t "r").0 e'))),
          subst (λ x. in_force now x ≡ true) f v,
        )
    | inr e' ↦ cc (let g : none ≡ some c = rw (e, e') at h in g)
  ]
]

pub parsed_back :
    (now : ℕ) (c : Claims) (t : String)
    → sign_known c ≡ some t
    → in_force now c ≡ true
    → parse_known now t ≡ some c
parsed_back now c t h v = elim (known c t h) [
  | inl (e, f) ↦ rw f (let g : in_force now access_claims ≡ true = rw e at v in rw (g, sym e))
  | inr (e, f) ↦ rw f (let g : in_force now refresh_claims ≡ true = rw e at v in rw (g, sym e))
]

abbrev pub jwt : Jwt
jwt = record {
  sign = sign_known;
  parse = parse_known;
  parse-sign = parsed_back;
  parse_signed = λ now t c h. (parsed now t c h).0;
  parse-in_force = λ now t c h. (parsed now t c h).1;
}
