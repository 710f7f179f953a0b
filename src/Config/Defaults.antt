-- ===== src/Config/Defaults.antt =====
-- common/schema/agentConfig.go, SetAgentDefaults, and setDefaults of server/global/defaults.go and of
-- agent/global/defaults.go: the limits and defaults of each set of settings.
pub mod Bounded
use unify_em.Base.{String, List, [], ◌∷◌}
use unify_em.Base.Int.{ℤ, pos}
use unify_em.Config.Params.{Params, AnyValue, text, int, other, set_constraint}

-- The arguments of a call of SetConstraint.
pub record Limit : Type 0 where
  pub key : String
  pub min : ℤ
  pub max : ℤ
  pub def : AnyValue

abbrev free : String → AnyValue → Limit
free key def = record { key = key; min = pos 0; max = pos 0; def = def }

abbrev between : String → ℤ → ℤ → ℤ → Limit
between key min max def = record { key = key; min = min; max = max; def = int def }

abbrev number : String → ℤ → Limit
number key def = free key (int def)

abbrev blank : String → Limit
blank key = free key (text "")

abbrev switch_on : String → Limit
switch_on key = free key (other "true")

abbrev switch_off : String → Limit
switch_off key = free key (other "false")

-- The calls of SetConstraint in their order.
unfoldable pub set_constraints : List Limit → Params → Params
set_constraints [] p = p
set_constraints (l ∷ ls) p = set_constraints ls (set_constraint l.key l.min l.max l.def p)

abbrev pub agent_limits : List Limit
agent_limits =
    between "sync_interval" (pos 5) (pos 86400) (pos 300)
    ∷ between "sync_pending" (pos 5) (pos 86400) (pos 60)
    ∷ between "sync_retry" (pos 5) (pos 86400) (pos 10)
    ∷ between "sync_lost" (pos 5) (pos 86400) (pos 60)
    ∷ between "status_interval" (pos 5) (pos 86400) (pos 21600)
    ∷ between "log_retention" (pos 1) (pos 365) (pos 30)
    ∷ switch_on "log_stdout"
    ∷ switch_on "log_windows_disk"
    ∷ switch_on "log_windows_events"
    ∷ switch_on "log_macos_disk"
    ∷ switch_on "log_linux_disk"
    ∷ switch_off "log_debug"
    ∷ switch_off "pin_ca"
    ∷ switch_off "verification"
    ∷ blank "verification_key"
    ∷ switch_off "recovery_info"
    ∷ []

-- SetAgentDefaults
unfoldable pub set_agent_defaults : Params → Params
set_agent_defaults p = set_constraints agent_limits p

abbrev pub agent_private_limits : List Limit
agent_private_limits =
    blank "reg_token"
    ∷ switch_off "config_lost"
    ∷ blank "log_file"
    ∷ blank "data_dir"
    ∷ blank "agent_id"
    ∷ blank "server_url"
    ∷ blank "ca_hash"
    ∷ blank "server_public_sig"
    ∷ blank "server_public_enc"
    ∷ blank "ec_private_sig"
    ∷ blank "ec_public_sig"
    ∷ blank "ec_private_enc"
    ∷ blank "ec_public_enc"
    ∷ blank "recovery_public_key"
    ∷ blank "recovery_public_key_hash"
    ∷ switch_off "recovery_info_pending"
    ∷ blank "install_friendly_name"
    ∷ []

-- setDefaults of the agent: the configuration and the protected set
unfoldable pub set_client_defaults : Params × Params → Params × Params
set_client_defaults (ac, ap) = (set_agent_defaults ac, set_constraints agent_private_limits ap)

abbrev pub server_limits : List Limit
server_limits =
    blank "log_file"
    ∷ switch_on "log_stdout"
    ∷ between "log_retention" (pos 1) (pos 0) (pos 365)
    ∷ free "listen" (text "127.0.0.1:8080")
    ∷ free "external_url" (text "http://127.0.0.1:8080")
    ∷ blank "data_path"
    ∷ blank "files_path"
    ∷ blank "db_path"
    ∷ number "http_timeout" (pos 30)
    ∷ number "http_idle_timeout" (pos 30)
    ∷ number "max_concurrent" (pos 100)
    ∷ number "penalty_box_min" (pos 1000)
    ∷ number "penalty_box_max" (pos 5000)
    ∷ number "handler_timeout" (pos 30)
    ∷ number "access_token_life" (pos 720)
    ∷ number "refresh_token_life_users" (pos 1440)
    ∷ free "authorized_admin_ips" (text "127.0.0.1")
    ∷ number "request_retries" (pos 3)
    ∷ number "request_retry_delay" (pos 600)
    ∷ between "agent_retention_days" (pos 1) (pos 0) (pos 365)
    ∷ between "event_retention_days" (pos 1) (pos 0) (pos 365)
    ∷ between "request_retention_days" (pos 1) (pos 0) (pos 365)
    ∷ blank "recovery_public_key"
    ∷ []

abbrev pub server_private_limits : List Limit
server_private_limits =
    blank "jwt_key"
    ∷ blank "reg_token"
    ∷ number "refresh_token_life_agents" (pos 0)
    ∷ blank "ec_private_sig"
    ∷ blank "ec_public_sig"
    ∷ blank "ec_private_enc"
    ∷ blank "ec_public_enc"
    ∷ []

-- setDefaults of the server: the configuration and the protected set
unfoldable pub set_server_defaults : Params × Params → Params × Params
set_server_defaults (sc, sp) =
    (set_constraints server_limits sc, set_constraints server_private_limits sp)
