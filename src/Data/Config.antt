-- ===== src/Data/Config.antt =====
-- What the data layer reads from the configuration, and what it takes from outside the repository.
use unify_em.Base.{ℕ, String}

-- server/global/defaults.go. An integer setting below zero is read as 0: the code only compares
-- these with positive bounds.
pub record ServerConfig : Type 0 where
  pub request_retries : ℕ
  pub request_retry_delay : ℕ
  pub agent_retention : ℕ
  pub request_retention : ℕ
  pub event_retention : ℕ
  pub access_token_life : ℕ
  pub refresh_token_life_users : ℕ
  pub refresh_token_life_agents : ℕ
  pub reg_token : String
  pub ec_public_sig : String
  pub ec_public_enc : String
  pub ec_private_enc : String
