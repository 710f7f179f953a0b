-- ===== src/Api/Auth.antt =====
-- server/api/auth.go, and SplitList and SplitMap of common/uconfig/params/value.go.
pub mod Granted
use Prim.Native.Char.{Char, code}
use unify_em.Base.Text.{split}
use unify_em.Base.{
  ℕ, String, ◌≡◌, Bool, true, false, not, ◌&&◌, ◌||◌, Option, none, some, List, [], ◌∷◌,
  if◌then◌else◌, ◌==◌, nat_eq, is_some, contains, Outcome, ok,
}
use unify_em.Schema.{role_admin, role_super_admin, token_purpose_access}
use unify_em.Data.Token.{Claims, Jwt, validate_token}

-- The server's AuthInfo of an authenticated caller.
pub record AuthDetails : Type 0 where
  pub id : String
  pub role : ℕ

-- What the function of NewAuthFunc returns: access, or a refusal, whose body says only whether the
-- token has expired.
pub data AuthResult : Type 0 where
  granted : AuthDetails → AuthResult
  denied : Bool → AuthResult

-- strings.HasPrefix with strings.TrimPrefix
strip_prefix : String → String → Option String
strip_prefix String.[] s = some s
strip_prefix (String.◌∷◌ c p) String.[] = none
strip_prefix (String.◌∷◌ c p) (String.◌∷◌ d s) =
    let rest = strip_prefix p s in if nat_eq (code c) (code d) then rest else none

unfoldable pub bearer_token : String → Option String
unfolding strip_prefix
bearer_token header = strip_prefix "Bearer " header

-- strings.Split(v, ",")
abbrev pub split_list : String → List String
split_list s = split b',' s

abbrev is_empty : List String → Bool
is_empty [] = true
is_empty (x ∷ xs) = false

-- The setting authorized_admin_ips, and the caller's address.
unfoldable pub authorized_admin_ip : String → String → Bool
authorized_admin_ip setting ip =
    if is_empty (split_list setting) then true else contains ip (split_list setting)

abbrev pub is_admin : ℕ → Bool
is_admin role = nat_eq role role_admin || nat_eq role role_super_admin

abbrev pub has_role : ℕ → List ℕ → Bool
has_role role [] = false
has_role role (r ∷ rs) = nat_eq role r || has_role role rs

-- `expired` is errors.Is(err, jwt.ErrTokenExpired) for the error of a token that is not accepted.
module _ (J : Jwt) (expired : ℕ → String → Bool) (setting : String) (now : ℕ) (roles : List ℕ)
    (ip : String) where
  check_role : String → ℕ → AuthResult
  check_role user role =
      if is_admin role && not (authorized_admin_ip setting ip)
      then denied false
      else if has_role role roles
      then granted (record { id = user; role = role })
      else denied false

  check_token : String → Outcome (String × ℕ) → AuthResult
  unfolding check_role
  check_token token (ok (user, role)) = check_role user role
  check_token token _ = denied (not (is_some (J.parse now token)) && expired now token)

  check_header : Option String → AuthResult
  unfolding check_token
  check_header none = denied false
  check_header (some token) = check_token token (validate_token J now token token_purpose_access)

  -- The function that NewAuthFunc returns.
  unfoldable pub authenticate : String → AuthResult
  unfolding check_header
  authenticate header =
      if ip == "" || header == "" then denied false else check_header (bearer_token header)
