-- ===== src/Api/Routes/Guarded.antt =====
-- What a caller needs to reach a handler.
use unify_em.Base.{
  ℕ, String, ◌≡◌, refl, Bool, true, false, not, ◌||◌, Option, some, List, [], ◌∷◌, ◌⊎◌, inl, inr,
  ◌==◌, nat_eq, contains, Outcome, ok, arith,
}
use unify_em.Schema.{role_agent, token_purpose_access}
use unify_em.Bolt.{Bolt}
use unify_em.Data.Token.{Claims}
use unify_em.Api.Auth.{
  AuthDetails, AuthResult, granted, denied, authenticate, bearer_token, has_role, is_admin,
  split_list,
}
use unify_em.Api.Auth.Granted.{authenticate_iff}
use unify_em.Api.Http.{JResponse}
use unify_em.Api.Sessions.{Serving}
use unify_em.Api.Routes.{
  Call, ping, login, refresh, register, sync, admins, any_role, Env, unauthorized, handle, admit,
  guard, serve,
}

-- The calls by which a caller obtains a token.
abbrev pub is_open_call : Call → Bool
is_open_call (login body) = true
is_open_call (refresh body) = true
is_open_call (register body) = true
is_open_call _ = false

-- The role that a call needs.
abbrev pub may_call : Call → ℕ → Bool
may_call ping role = true
may_call (sync body) role = nat_eq role role_agent
may_call call role = is_admin role

module _ ⦃B : Bolt⦄ (E : Env) (src ip header : String) (s : Serving) where
  -- The caller has shown an access token of a role that may make the call, from a listed address if it
  -- is an administrator, and the handler ran as that caller.
  pub record Granted (call : Call) (p : Outcome (Option JResponse) × Serving) : Type 0 where
    pub who : AuthDetails
    pub token : String
    pub claims : Claims
    pub shown : bearer_token header ≡ some token
    pub parsed : E.jwt.parse E.now token ≡ some claims
    pub purpose : claims.purpose == token_purpose_access ≡ true
    pub is_caller : who ≡ record { id = claims.subject; role = claims.role }
    pub may : may_call call claims.role ≡ true
    pub listed : not (is_admin claims.role) || contains src (split_list E.admin_ips) ≡ true
    pub ran : p ≡ handle E call ip who s

  abbrev pub Refused : Outcome (Option JResponse) × Serving → Type 0
  Refused p = (expired : Bool) × (p ≡ (ok (some (unauthorized expired)), s))

  admitted :
      (call : Call) (roles : List ℕ)
      → ((role : ℕ) → has_role role roles ≡ true → may_call call role ≡ true)
      → (a : AuthResult) → authenticate E.jwt E.expired E.admin_ips E.now roles src header ≡ a
      → Refused (admit E call ip a s) ⊎ Granted call (admit E call ip a s)
  unfolding admit
  admitted call roles can (denied expired) e = inl (expired, refl)
  admitted call roles can (granted who) e =
      let (known, token, shown, by) =
        (authenticate_iff E.jwt E.expired E.admin_ips E.now roles src header who).0 e in
      let (c, parsed, purpose, allowed, same) = by in
      inr (record {
        who = who;
        token = token;
        claims = c;
        shown = shown;
        parsed = parsed;
        purpose = purpose;
        is_caller = same;
        may = can c.role allowed.acceptable;
        listed = allowed.from_listed_ip;
        ran = refl;
      })

  admin_only : (role : ℕ) → has_role role admins ≡ true → is_admin role ≡ true
  admin_only role h = ground arith

  agent_only : (role : ℕ) → has_role role (role_agent ∷ []) ≡ true → nat_eq role role_agent ≡ true
  agent_only role h = ground arith

  any_role_may : (role : ℕ) → has_role role any_role ≡ true → may_call ping role ≡ true
  any_role_may role h = refl

  -- A call that is not a login, a refresh or a registration is refused with 401 and changes nothing, or
  -- the caller has shown an access token in force whose role may make the call (any role for a ping, an
  -- agent for a sync, else an administrator), from a listed address if it is an administrator's, and
  -- the handler ran as the subject of that token.
  pub serve-Granted :
      (call : Call)
      → is_open_call call ≡ false
      → Refused (serve E call src ip header s) ⊎ Granted call (serve E call src ip header s)
  unfolding serve guard
  serve-Granted ping h = admitted ping any_role any_role_may _ refl
  serve-Granted (sync body) h = admitted (sync body) (role_agent ∷ []) agent_only _ refl
  serve-Granted (login body) h = cc
  serve-Granted (refresh body) h = cc
  serve-Granted (register body) h = cc
  serve-Granted call h = admitted call admins admin_only _ refl
