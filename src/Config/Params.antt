-- ===== src/Config/Params.antt =====
-- common/uconfig/params: params.go, enforce.go and value.go. A set of settings is a map from a key to
-- a text with a default and limits; a limit of 0 is none.
pub mod Admitted
pub mod Saved
pub mod Reads
use unify_em.Base.{
  String, ◌≡◌, Bool, true, false, not, ◌&&◌, ◌||◌, Option, none, some, List, [], ◌∷◌, if◌then◌else◌,
  ◌==◌, is_set, Dict, lookup, insert, has_key, Error, fault, Outcome, ok, err, bad_data, contains,
}
use unify_em.Base.Int.{ℤ, pos, ltb_ℤ, is_zero, int_text, atoi}

pub record Element : Type 0 where
  pub value : String
  pub default_value : String
  pub min : ℤ
  pub max : ℤ

-- Element{}
abbrev pub new_element : Element
new_element = record { value = ""; default_value = ""; min = pos 0; max = pos 0 }

abbrev pub Params : Type 0
Params = Dict Element

-- What is passed as `any`: a string, an int, an int64, or another value with its %v.
pub data AnyValue : Type 0 where
  text : String → AnyValue
  int int64 : ℤ → AnyValue
  other : String → AnyValue

-- fmt.Sprintf("%v", value)
abbrev pub any_text : AnyValue → String
any_text (text s) = s
any_text (int n) = int_text n
any_text (int64 n) = int_text n
any_text (other s) = s

module _ (min max : ℤ) where
  -- The two comparisons with the limits, each of them where it is set.
  abbrev pub is_outside : ℤ → Bool
  is_outside n = (not (is_zero min) && ltb_ℤ n min) || (not (is_zero max) && ltb_ℤ max n)

  unfoldable pub enforce_any : AnyValue → String → String
  enforce_any (text s) def = if s == "" then def else s
  enforce_any (int n) def = if is_outside n then def else int_text n
  enforce_any (int64 n) def = if is_outside n then def else int_text n
  enforce_any (other s) def = s

  abbrev pub is_outside? : Option ℤ → Bool
  is_outside? none = false
  is_outside? (some n) = is_outside n

unfoldable pub enforce : Element → String
enforce e =
    if e.value == "" && is_set e.default_value
    then e.default_value
    else if is_outside? e.min e.max (atoi e.value)
    then e.default_value
    else e.value

unfoldable pub exists : Params → String → Bool
exists p key = has_key key p

-- The element of the key, or a new one.
abbrev pub element_of : Option Element → Element
element_of none = new_element
element_of (some e) = e

unfoldable pub set : String → AnyValue → Params → Params
set key v p =
    let e = element_of (lookup key p) in
    insert key (record e { value = enforce_any e.min e.max v e.default_value }) p

unfoldable pub set_default : String → AnyValue → Params → Params
set_default key v p =
    let e = element_of (lookup key p) in insert key (record e { default_value = any_text v }) p

unfoldable pub set_constraint : String → ℤ → ℤ → AnyValue → Params → Params
set_constraint key min max def p =
    let e = element_of (lookup key p) in
    insert key (record e { default_value = any_text def; min = min; max = max }) p

-- The order of the list is that in which `range` visits the map.
unfoldable pub set_map : Dict AnyValue → Params → Params
set_map [] p = p
set_map ((key, v) ∷ rest) p = set_map rest (set key v p)

unfoldable pub set_string_map : Dict String → Params → Params
set_string_map [] p = p
set_string_map ((key, s) ∷ rest) p = set_string_map rest (set key (text s) p)

unfoldable pub delete : String → Params → Params
delete key p = let e = element_of (lookup key p) in insert key (record e { value = "" }) p

-- A value that was changed by the limits is saved.
get_found : String → Params → Option Element → String × Params
get_found key p none = ("", p)
get_found key p (some e) =
    let ret = enforce e in
    (ret, if ret == e.value then p else insert key (record e { value = ret }) p)

unfoldable pub get : String → Params → String × Params
unfolding get_found
get key p = get_found key p (lookup key p)

unfoldable pub get_map : Params → Dict String
get_map [] = []
get_map ((key, e) ∷ rest) = (key, enforce e) ∷ get_map rest

-- The JSON of a map, as what it decodes to; `none` is text that is no such JSON.
unfoldable pub serialize : Params → Option (Dict String)
serialize p = some (get_map p)

unfoldable pub deserialize : Option (Dict String) → Params → Outcome (Unit {0}) × Params
deserialize none p = (err (fault bad_data), p)
deserialize (some m) p = (ok tt, set_string_map m p)

-- value.go
int_of : Option ℤ → ℤ
int_of none = pos 0
int_of (some n) = n

unfoldable pub to_int : String → ℤ
unfolding int_of
to_int v = int_of (atoi v)

-- strconv.ParseBool, with an error as false
unfoldable pub to_bool : String → Bool
to_bool v = contains v ("1" ∷ "t" ∷ "T" ∷ "true" ∷ "TRUE" ∷ "True" ∷ [])
