-- ===== src/Api/Settings.antt =====
-- server/api/config.go, recovery.go and regtoken.go: an administrator reads and changes the sets of
-- parameters. `saves` says whether Checkpoint writes the file.
pub mod Applied
use Prim.Native.Char.{code}
use Prim.Native.String.{◌++◌ as ◌+++◌}
use unify_em.Base.{
  String, Bool, true, false, Option, none, some, List, [], ◌∷◌, if◌then◌else◌, ◌==◌, nat_eq, Dict,
  Outcome, ok, Exec, pure, ◌>>=◌,
}
use unify_em.Bolt.{Bolt}
use unify_em.Db.Bucket.{Db}
use unify_em.Data.Sync.{get_agent_recovery_info}
use unify_em.Config.Params.{Params, text, exists, set, set_string_map, get, get_map}
use unify_em.Api.Http.{
  HttpBody, unreadable, not_json, json, JResponse, config_set, generic, recovery, ok_with, refuse,
  with_body, with_param,
}

-- The sets of global.ServerConfig: SC, AC and SP.
pub record Sets : Type 0 where
  pub server_set : Params
  pub agent_set : Params
  pub protected_set : Params

-- The switch on the target's name; `none` is its default case.
abbrev pub target_set : String → Sets → Option Params
target_set target s =
    if target == "agents"
    then some s.agent_set
    else if target == "server"
    then some s.server_set
    else none

abbrev pub with_target : String → Params → Sets → Sets
with_target target p s =
    if target == "agents" then record s { agent_set = p } else record s { server_set = p }

shown_map : String → String → Dict String → JResponse
shown_map target msg [] = record { http_code = 400; json_data = config_set "error" msg [] }
shown_map target msg ((key, v) ∷ rest) =
    ok_with (config_set "ok" ("config set '" +++ target +++ "' retrieved") ((key, v) ∷ rest))

config_shown : String → Option Params → JResponse
unfolding shown_map
config_shown target none = shown_map target ("invalid config set '" +++ target +++ "'") []
config_shown target (some p) =
    shown_map target ("config set '" +++ target +++ "' is empty") (get_map p)

unfoldable pub get_config_target : String → Exec Sets JResponse
unfolding config_shown
get_config_target target s = (ok (config_shown target (target_set target s)), s)

-- The first parameter, in the order in which `range` visits them, that the set does not have.
pub first_absent : Params → Dict String → Option String
first_absent p [] = none
first_absent p ((key, v) ∷ rest) =
    let later = first_absent p rest in if exists p key then later else some key

updated_set : String → Params → Dict String → Option String → Exec Sets JResponse
updated_set target p params (some key) s = (
  ok (refuse 400 ("parameter '" +++ key +++ "' does not exist in target set '" +++ target +++ "'")),
  s,
)
updated_set target p params none s = (
  ok (ok_with (generic ("config set '" +++ target +++ "' updated"))),
  with_target target (set_string_map params p) s,
)

put_parameters : String → Params → Dict String → Exec Sets JResponse
unfolding updated_set first_absent
put_parameters target p [] = pure (refuse 400 "no parameters provided")
put_parameters target p ((key, v) ∷ rest) =
    updated_set target p ((key, v) ∷ rest) (first_absent p ((key, v) ∷ rest))

put_config : String → HttpBody (Dict String) → Option Params → Exec Sets JResponse
unfolding put_parameters with_body
put_config target body none = pure (refuse 400 ("invalid config set '" +++ target +++ "'"))
put_config target body (some p) = with_body body (put_parameters target p)

-- A failed Checkpoint is not reported.
unfoldable pub put_config_target : String → HttpBody (Dict String) → Exec Sets JResponse
unfolding put_config
put_config_target target body s = put_config target body (target_set target s) s

-- ValidatePublicKey of common/crypto/validate.go calls Go's base64 and x509: `is_ec_key` is their
-- answer, whether the text is an EC public key.
recovery_saved : Bool → JResponse
recovery_saved true = ok_with (generic "recovery public key updated")
recovery_saved false = refuse 500 "failed to save recovery key"

unfoldable pub post_recovery_key : (String → Bool) → Bool → HttpBody String → Exec Sets JResponse
unfolding recovery_saved with_body
post_recovery_key is_ec_key saves body = with_body body λ public_key s.
    if public_key == ""
    then (ok (refuse 400 "public_key is required"), s)
    else if is_ec_key public_key
    then (
      ok (recovery_saved saves),
      record s { server_set = set "recovery_public_key" (text public_key) s.server_set },
    )
    else (ok (refuse 400 "invalid public key format"), s)

module _ ⦃B : Bolt⦄ where
  -- An empty text is left out of the JSON.
  unfoldable pub get_agent_recovery : String → Exec Db JResponse
  unfolding with_param
  get_agent_recovery id =
      with_param "agent ID required" id
        λ agent_id. do info ← get_agent_recovery_info agent_id; pure (ok_with (recovery info))

-- The URL less a slash at its end.
abbrev pub strip_slash : String → String
strip_slash String.[] = ""
strip_slash (String.◌∷◌ c String.[]) = if nat_eq (code c) b'/' then "" else String.◌∷◌ c String.[]
strip_slash (String.◌∷◌ c (String.◌∷◌ d s)) = String.◌∷◌ c (strip_slash (String.◌∷◌ d s))

-- `base64` is base64.StdEncoding.
module _ (base64 : String → String) where
  abbrev pub registration_text : String → String → String
  registration_text url token =
      base64 ("{\"s\":\"" +++ strip_slash url +++ "\",\"t\":\"" +++ token +++ "\"}")

  token_shown : String → String → JResponse
  token_shown token url =
      if token == ""
      then refuse 500 "error retrieving registration token"
      else if url == ""
      then refuse 500 "error retrieving external URL"
      else ok_with (generic (registration_text url token))

  unfoldable pub get_reg_token : Exec Sets JResponse
  unfolding token_shown
  get_reg_token s =
      let (token, sp) = get "reg_token" s.protected_set in
      let (url, sc) = get "external_url" s.server_set in
      (
        ok (token_shown token url),
        record s { protected_set = sp; server_set = if token == "" then s.server_set else sc },
      )

  token_saved : Bool → String → String → JResponse
  token_saved true token url = ok_with (generic (registration_text url token))
  token_saved false token url = refuse 500 "error saving configuration"

  token_drawn : Bool → String → Option String → Exec Sets JResponse
  unfolding token_saved
  token_drawn saves url none s = (ok (refuse 500 "error generating new registration token"), s)
  token_drawn saves url (some token) s = (
    ok (token_saved saves token url),
    record s { protected_set = set "reg_token" (text token) s.protected_set },
  )

  -- `draw` is what GenerateToken draws.
  unfoldable pub post_reg_token : Bool → Option String → Exec Sets JResponse
  unfolding token_drawn
  post_reg_token saves draw s =
      let (url, sc) = get "external_url" s.server_set in
      let s' = record s { server_set = sc } in
      if url == ""
      then (ok (refuse 500 "error retrieving external URL"), s')
      else token_drawn saves url draw s'
