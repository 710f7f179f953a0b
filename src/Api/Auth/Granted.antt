-- ===== src/Api/Auth/Granted.antt =====
-- Who is granted access.
use Prim.Native.Char.{Char, code}
use unify_em.Base.Text.{glue, split}
use unify_em.Base.{
  ℕ, String, ◌≡◌, refl, sym, ap, ◌∙◌, Bool, true, false, not, ◌&&◌, ◌||◌, Option, none, some, List,
  [], ◌∷◌, ◌==◌, contains, Outcome, ok, err, panic, Bool-cases, inl, inr, ◌↔◌, nat_eq, eq_iff,
}
use unify_em.Schema.{token_purpose_access}
use unify_em.Data.Token.{Claims, Jwt, validate_token}
use unify_em.Data.Token.Validated.{validate_token_iff}
use unify_em.Api.Auth.{
  AuthDetails, granted, denied, split_list, is_empty, authorized_admin_ip, is_admin, has_role,
  check_role, check_token, check_header, authenticate, bearer_token, strip_prefix,
}

glue_lem : (c : Char) (parts : List String) → is_empty (glue c parts) ≡ false
glue_lem c [] = refl
glue_lem c (p ∷ parts) = refl

split_lem : (s : String) → is_empty (split_list s) ≡ false
unfolding split
split_lem String.[] = refl
split_lem (String.◌∷◌ c s) = elim (Bool-cases (nat_eq (code c) b',')) [
  | inl e ↦ rw e refl
  | inr e ↦ rw e (glue_lem c (split_list s))
]

-- The list of authorized addresses is never empty, since Split gives at least one part: an address is
-- authorized exactly if it is a part of the setting, also where the setting is the empty string.
pub authorized_admin_ip_lem :
    (setting ip : String) → authorized_admin_ip setting ip ≡ contains ip (split_list setting)
unfolding authorized_admin_ip
authorized_admin_ip_lem setting ip = rw (split_lem setting) refl

either : (a b : Bool) → a && not b ≡ false → not a || b ≡ true
either true true h = refl
either true false h = cc
either false b h = refl

left_false : (a b : Bool) → a || b ≡ false → a ≡ false
left_false true b h = cc
left_false false b h = refl

set_header : (header token : String) → bearer_token header ≡ some token → header == "" ≡ false
unfolding bearer_token strip_prefix
set_header header token b = elim (Bool-cases (header == "")) [
  | inr e ↦ e
  | inl e ↦ absurd_none (ap bearer_token (sym ((eq_iff header "").0 e)) ∙ b)
]
  where
    absurd_none : bearer_token "" ≡ some token → header == "" ≡ false
    absurd_none h = cc

not_both : (a b : Bool) → not a || b ≡ true → a && not b ≡ false
not_both true true h = refl
not_both true false h = cc
not_both false b h = refl

module _ (J : Jwt) (expired : ℕ → String → Bool) (setting : String) (now : ℕ) (roles : List ℕ)
    (ip : String) where
  -- What a caller's role needs.
  pub record RoleAllowed (role : ℕ) : Type 0 where
    pub acceptable : has_role role roles ≡ true
    pub from_listed_ip : not (is_admin role) || contains ip (split_list setting) ≡ true

  -- An access token that the parser accepts, of an acceptable role, used from an address that an
  -- administrator may use if the role is an administrator's.
  abbrev pub AuthorizedBy : AuthDetails → String → Type 0
  AuthorizedBy who token =
      (c : Claims) × (J.parse now token ≡ some c)
      × (c.purpose == token_purpose_access ≡ true)
      × RoleAllowed c.role
      × (who ≡ record { id = c.subject; role = c.role })

  granted_inj : {x y : AuthDetails} → granted x ≡ granted y → x ≡ y
  granted_inj h = cc

  role_ok :
      (user : String) (role : ℕ) (who : AuthDetails)
      → check_role J expired setting now roles ip user role ≡ granted who
      → RoleAllowed role × (who ≡ record { id = user; role = role })
  unfolding check_role
  role_ok user role who h =
      elim (Bool-cases (is_admin role && not (authorized_admin_ip setting ip))) [
        | inl e ↦ cc (let g : denied false ≡ granted who = rw e at h in g)
        | inr e ↦ elim (Bool-cases (has_role role roles)) [
          | inr f ↦ cc (let g : denied false ≡ granted who = rw (e, f) at h in g)
          | inl f ↦ (
            record {
              acceptable = f;
              from_listed_ip =
                  either (is_admin role) _ (rw (authorized_admin_ip_lem setting ip) at e);
            },
            sym (granted_inj (rw (e, f) at h)),
          )
        ]
      ]

  ok_role :
      (user : String) (role : ℕ)
      → RoleAllowed role
      → check_role J expired setting now roles ip user role
        ≡ granted (record { id = user; role = role })
  unfolding check_role
  ok_role user role a =
      let e : is_admin role && not (authorized_admin_ip setting ip) ≡ false =
        rw (authorized_admin_ip_lem setting ip) (not_both (is_admin role) _ a.from_listed_ip) in
      rw (e, a.acceptable) refl

  token_ok :
      (token : String) (o : Outcome (String × ℕ)) (who : AuthDetails)
      → check_token J expired setting now roles ip token o ≡ granted who
      → (p : String × ℕ) × (o ≡ ok p)
        × (check_role J expired setting now roles ip p.0 p.1 ≡ granted who)
  unfolding check_token
  token_ok token (ok p) who h = (p, refl, h)
  token_ok token (err e) who h = cc
  token_ok token panic who h = cc

  header_ok :
      (o : Option String) (who : AuthDetails)
      → check_header J expired setting now roles ip o ≡ granted who
      → (token : String) × (o ≡ some token) × AuthorizedBy who token
  unfolding check_header
  header_ok none who h = cc
  header_ok (some token) who h =
      let (p, e, g) = token_ok token (validate_token J now token token_purpose_access) who h in
      let (c, parsed, purpose, same) =
        (validate_token_iff J now token_purpose_access token p).0 e in
      let (allowed, is_who) = role_ok c.subject c.role who (rw same at g) in
      (token, refl, (c, parsed, purpose, allowed, is_who))

  ok_header :
      (token : String) (who : AuthDetails)
      → AuthorizedBy who token
      → check_header J expired setting now roles ip (some token) ≡ granted who
  unfolding check_header check_token
  ok_header token who (c, parsed, purpose, allowed, is_who) =
      rw
        ((validate_token_iff J now token_purpose_access token (c.subject, c.role)).1
          (c, parsed, purpose, refl))
        (ok_role c.subject c.role allowed ∙ ap granted (sym is_who))

  -- A caller is granted access, as the subject and role of its token, exactly if its address is known
  -- and its header is "Bearer " with an access token that the parser accepts, whose role is among the
  -- acceptable ones and, if it is an administrator's, whose address is a part of the setting.
  pub authenticate_iff :
      (header : String) (who : AuthDetails)
      → (authenticate J expired setting now roles ip header ≡ granted who) ↔ (
          (ip == "" ≡ false)
          × (token : String) × (bearer_token header ≡ some token)
          × AuthorizedBy who token)
  unfolding authenticate
  authenticate_iff header who = (λ h. sound h, λ h. complete h.0 h.1 h.2 h.3)
    where
      sound :
          authenticate J expired setting now roles ip header ≡ granted who
          → (ip == "" ≡ false)
            × (token : String) × (bearer_token header ≡ some token)
            × AuthorizedBy who token
      sound h = elim (Bool-cases (ip == "" || header == "")) [
        | inl e ↦ cc (let g : denied false ≡ granted who = rw e at h in g)
        | inr e ↦
            let (token, b, by) = header_ok (bearer_token header) who (rw e at h) in
            (left_false (ip == "") (header == "") e, token, b, by)
      ]

      complete :
          ip == "" ≡ false
          → (token : String) → bearer_token header ≡ some token
          → AuthorizedBy who token
          → authenticate J expired setting now roles ip header ≡ granted who
      complete i token b by = rw (i, set_header header token b, b) (ok_header token who by)
