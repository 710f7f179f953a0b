-- ===== src/Db/Keys.antt =====
-- server/db/keys.go.
use Prim.Native.Char.{Char, code}
use unify_em.Base.{String, Bool, ◌||◌, ◌&&◌, if◌then◌else◌, leb, nat_eq}

-- [a-zA-Z0-9-]
unfoldable pub is_key_char : Char → Bool
is_key_char c =
    let n = code c in
    (leb b'a' n && leb n b'z')
    || (leb b'A' n && leb n b'Z')
    || (leb b'0' n && leb n b'9')
    || nat_eq n b'-'

-- validateKey drops every other character.
unfoldable pub validate_key : String → String
unfolding is_key_char
validate_key String.[] = String.[]
validate_key (String.◌∷◌ c s) =
    let rest = validate_key s in if is_key_char c then String.◌∷◌ c rest else rest
