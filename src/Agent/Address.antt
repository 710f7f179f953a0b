-- ===== src/Agent/Address.antt =====
-- agent/communications: the server's address. misc.go builds the URL of a call, and register.go splits
-- a registration token; global.Unsafe is false.
use Prim.Native.Char.{code}
use Prim.Native.String.{◌++◌ as ◌+++◌}
use unify_em.Base.{
  String, Bool, false, Option, none, some, ◌||◌, ◌&&◌, not, if◌then◌else◌, ◌==◌, nat_eq, is_set,
}

-- url.URL, with its parts that the code reads or clears; `rest` is the others.
pub record Url : Type 0 where
  pub scheme : String
  pub host : String
  pub path : String
  pub raw_query : String
  pub fragment : String
  pub rest : String

-- url.Parse and URL.String, and the JSON {"s": …, "t": …} in base64.
pub record Urls : Type 0 where
  pub parse_url : String → Option Url
  pub url_text : Url → String
  pub token_data : String → Option (String × String)

abbrev pub without_path : Url → Url
without_path u = record u { path = ""; raw_query = ""; fragment = "" }

-- strings.TrimRight(s, "/")
trim_right : String → String
trim_right String.[] = ""
trim_right (String.◌∷◌ c s) =
    let rest = trim_right s in if nat_eq (code c) b'/' && rest == "" then "" else String.◌∷◌ c rest

trim_left : String → String
trim_left String.[] = ""
trim_left (String.◌∷◌ c s) =
    let rest = trim_left s in if nat_eq (code c) b'/' then rest else String.◌∷◌ c s

has_slash : String → Bool
has_slash String.[] = false
has_slash (String.◌∷◌ c s) = nat_eq (code c) b'/' || has_slash s

module _ (U : Urls) where
  built : String → Option Url → Option String
  unfolding trim_right
  built path none = none
  built path (some u) =
      if u.scheme == "https" then some (trim_right (U.url_text (without_path u)) +++ path) else none

  -- buildURL; `none` is an error.
  unfoldable pub build_url : String → String → Option String
  unfolding built
  build_url server path = built path (U.parse_url server)

  -- The checks that both forms of a token share.
  abbrev usable : Url → Bool
  usable u = is_set u.scheme && is_set u.host && u.scheme == "https"

  validated : String → Option Url → Option (String × String)
  validated token none = none
  validated token (some u) = if usable u then some (U.url_text (without_path u), token) else none

  pub validate_server_and_token : String → String → Option (String × String)
  unfolding validated
  validate_server_and_token server token = validated token (U.parse_url server)

  -- The path is one part if, with the slashes around it trimmed, it has none.
  legacy : Option Url → Option (String × String)
  unfolding trim_left trim_right has_slash
  legacy none = none
  legacy (some u) =
      let token = trim_right (trim_left u.path) in
      if usable u && not (has_slash token) && is_set token
      then some (U.url_text (without_path u), token)
      else none

  pub parse_legacy_token : String → Option (String × String)
  unfolding legacy
  parse_legacy_token token = legacy (U.parse_url token)

  split_by : String → Option (String × String) → Option (String × String)
  unfolding validate_server_and_token parse_legacy_token
  split_by token none = parse_legacy_token token
  split_by token (some (s, t)) =
      if is_set s && is_set t then validate_server_and_token s t else parse_legacy_token token

  -- splitToken: the server's URL and the token.
  unfoldable pub split_token : String → Option (String × String)
  unfolding split_by
  split_token token = split_by token (U.token_data token)
