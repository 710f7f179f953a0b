-- ===== src/Commands/Validate.antt =====
-- common/schema/commands/validate.go.
pub mod Verdicts
pub mod Hash
use unify_em.Base.{
  String, ◌≡◌, Bool, Option, none, some, List, [], ◌∷◌, ◌||◌, if◌then◌else◌, Dict, lookup, has_key,
  is_some, contains, not,
}
use unify_em.Commands.Table.{Command, cmds}

pub data Invalid : Type 0 where
  invalid_command : Invalid
  missing_argument : String → Invalid
  invalid_argument : String → Invalid

-- The first required argument that is not there.
missing : List String → Dict String → Option String
missing [] params = none
missing (a ∷ args) params =
    let rest = missing args params in if has_key a params then rest else some a

-- The two inner loops of the last check.
abbrev pub takes : Command → String → Bool
takes c param = contains param c.required_args || contains param c.optional_args

-- The first parameter, in the order of the map, that the command does not take.
unknown : Command → Dict String → Option String
unknown c [] = none
unknown c ((param, v) ∷ rest) =
    let later = unknown c rest in if takes c param then later else some param

check_unknown : Option String → Option Invalid
check_unknown none = none
check_unknown (some param) = some (invalid_argument param)

check_missing : Option String → Option String → Option Invalid
unfolding check_unknown
check_missing (some arg) extra = some (missing_argument arg)
check_missing none extra = check_unknown extra

check : Option Command → Dict String → Option Invalid
unfolding check_missing missing unknown
check none params = some invalid_command
check (some c) params = check_missing (missing c.required_args params) (unknown c params)

-- `none` is the nil error.
unfoldable pub validate : String → Dict String → Option Invalid
unfolding check
validate cmd params = check (lookup cmd cmds) params

-- ValidateCmd
unfoldable pub validate_cmd : String → Option Invalid
validate_cmd cmd = if is_some (lookup cmd cmds) then none else some invalid_command
