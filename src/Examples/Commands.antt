-- ===== src/Examples/Commands.antt =====
-- Validate on commands with good and bad parameters.
use unify_em.Base.{String, ◌≡◌, refl, none, some, [], ◌∷◌, Dict, lookup}
use unify_em.Commands.Table.{cmds}
use unify_em.Commands.Validate.{validate, missing_argument, invalid_argument, invalid_command}
use unify_em.Commands.Validate.Verdicts.{Verdict, validate_lem}

abbrev good_params : Dict String
good_params = ("url", "deploy.sh") ∷ ("agent_id", "A-1") ∷ ("arg2", "x") ∷ []

abbrev bad_params : Dict String
bad_params = ("user", "bob") ∷ ("agent_id", "A-1") ∷ ("color", "red") ∷ []

accepts : validate "download_execute" good_params ≡ none
unfolding validate cmds
accepts = refl

names_missing : validate "user_add" bad_params ≡ some (missing_argument "password")
unfolding validate cmds
names_missing = refl

names_extra : validate "user_delete" bad_params ≡ some (invalid_argument "color")
unfolding validate cmds
names_extra = refl

knows_no_other : validate "format_disk" [] ≡ some invalid_command
unfolding validate cmds
knows_no_other = refl

validate_lem_example : Verdict (lookup "user_add" cmds) bad_params (validate "user_add" bad_params)
validate_lem_example = validate_lem "user_add" bad_params
