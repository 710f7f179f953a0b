-- ===== src/Commands/Table.antt =====
-- common/schema/commands/commands.go. The table is that of `init`, with the standard arguments that
-- its last loop appends.
use unify_em.Base.{String, Bool, true, false, Option, none, some, List, [], ◌∷◌, ◌++◌, Dict, lookup}

pub record Command : Type 0 where
  pub name : String
  pub ack_required : Bool
  pub required_args : List String
  pub optional_args : List String

-- allArgN(12)
abbrev pub all_arg_12 : List String
all_arg_12 =
    "arg1" ∷ "arg2" ∷ "arg3" ∷ "arg4" ∷ "arg5" ∷ "arg6" ∷ "arg7" ∷ "arg8" ∷ "arg9" ∷ "arg10"
    ∷ "arg11" ∷ "arg12" ∷ []

-- the arguments that the loop at the end of `init` adds to every command
abbrev pub standard_args : List String
standard_args = "agent_id" ∷ "request_id" ∷ "hash" ∷ []

abbrev command : String → Bool → List String → List String → String × Command
command name ack required optional = (
  name,
  record {
    name = name;
    ack_required = ack;
    required_args = required;
    optional_args = optional ++ standard_args;
  },
)

unfoldable pub cmds : Dict Command
cmds =
    command "download_execute" false ("url" ∷ "agent_id" ∷ []) all_arg_12
    ∷ command "execute" true ("cmd" ∷ "agent_id" ∷ []) (all_arg_12 ++ ("ssh" ∷ []))
    ∷ command "status" true ("agent_id" ∷ []) []
    ∷ command "ping" true ("agent_id" ∷ []) []
    ∷ command "reboot" false ("agent_id" ∷ []) []
    ∷ command "refresh_service_account" true ("agent_id" ∷ []) []
    ∷ command "shutdown" false ("agent_id" ∷ []) []
    ∷ command "upgrade" false ("agent_id" ∷ []) []
    ∷ command "user_add" true ("user" ∷ "password" ∷ "agent_id" ∷ []) ("admin" ∷ [])
    ∷ command "user_delete" true ("user" ∷ "agent_id" ∷ []) ("shutdown" ∷ [])
    ∷ command "user_admin" true ("user" ∷ "admin" ∷ "agent_id" ∷ []) []
    ∷ command "user_password" true ("user" ∷ "password" ∷ "agent_id" ∷ []) []
    ∷ command "user_list" true ("agent_id" ∷ []) []
    ∷ command "user_lock" true ("user" ∷ "agent_id" ∷ []) ("shutdown" ∷ [])
    ∷ command "user_unlock" true ("user" ∷ "password" ∷ "agent_id" ∷ []) []
    ∷ []

abbrev ack_of : Option Command → Bool
ack_of none = false
ack_of (some c) = c.ack_required

-- IsAckRequired
unfoldable pub is_ack_required : String → Bool
unfolding cmds
is_ack_required cmd = ack_of (lookup cmd cmds)
