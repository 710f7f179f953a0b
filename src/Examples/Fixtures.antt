-- ===== src/Examples/Fixtures.antt =====
-- A small server: its configuration, a database file, agents, requests and tokens.
use mathlib.Core.Path.{subst₂}
use unify_em.Base.{
  ◌≢◌, String, ◌≡◌, refl, sym, ap, true, false, none, some, some_inj, [], ◌∷◌, ◌==◌, eq_iff,
  eq_refl, Bool-cases, inl, inr, ok,
}
use unify_em.Schema.{AgentRequestRecord, AgentRequest, AgentResponse, new_db_agent_request, new}
use unify_em.Bolt.Listed.{listed}
use unify_em.Db.Bucket.{Db, decodes, requests_bucket}
use unify_em.Db.Bucket.Every.{Every}
use unify_em.Db.Auth.{PasswordHash}
use unify_em.Data.Config.{ServerConfig}
use unify_em.Data.Dispatch.{Files}
use unify_em.Data.Lifecycle.{Server}

abbrev pub file : Db
file = record {
  auth = none;
  requests = none;
  agent_meta = none;
  events = none;
  user_meta = none;
  has_logger = false;
}

abbrev pub conf : ServerConfig
conf = record {
  request_retries = 5;
  request_retry_delay = 600;
  agent_retention = 90;
  request_retention = 30;
  event_retention = 30;
  access_token_life = 15;
  refresh_token_life_users = 60;
  refresh_token_life_agents = 60;
  reg_token = "secret";
  ec_public_sig = "server sig";
  ec_public_enc = "server enc";
  ec_private_enc = "server key";
}

abbrev pub files : Files
files = record { hash_of = λ f. some "abc"; url_path = λ u. some u }

abbrev pub server : Server
server = record { conf = conf; files = files; decrypt = λ c k. some c }

abbrev pub ping : AgentRequestRecord
ping = record new_db_agent_request {
  agent_id = "A-1";
  request_id = "R-1";
  request = "ping";
  requester = "admin";
  ack_required = true;
  parameters = ("agent_id", "A-1") ∷ [];
  status = new;
}

abbrev pub pong : AgentResponse
pong = record {
  request_id = "R-1";
  cmd = "ping";
  response = "pong";
  success = true;
  payload = none;
  service_credentials = "";
  pre_shutdown = false;
  shutdown_type = "";
}

abbrev pub ask : AgentRequest
ask = record {
  created = 0;
  requester = "admin";
  request = "ping";
  ack_required = true;
  request_id = "R-2";
  agent_id = "A-1";
  parameters = ("agent_id", "A-1") ∷ [];
}

-- A hash that is the password itself.
abbrev pub plain : PasswordHash
plain = record {
  Salt = Unit;
  generate_hash = λ salt pass. some pass;
  verify_hash = λ pass hash. ok (pass == hash);
  verify-generate = λ salt pass hash h. ap ok (rw (sym (some_inj h)) (eq_refl pass));
}

-- The file with one request.
abbrev pub db_with : AgentRequestRecord → Db
db_with r = record file {
  requests = some (record { items = ("R-1", decodes r) ∷ []; distinct = (refl, tt) });
}

pub decodes_inj : {V : Type 0} {v w : V} → some (decodes v) ≡ some (decodes w) → v ≡ w
decodes_inj h = cc

pub only_request :
    (Q : String → AgentRequestRecord → Type 0) (r : AgentRequestRecord)
    → Q "R-1" r
    → Every requests_bucket Q (db_with r)
only_request Q r q key v e = elim (Bool-cases ("R-1" == key)) [
  | inl same_key ↦ subst₂ Q ((eq_iff "R-1" key).0 same_key) (decodes_inj (rw same_key at e)) q
  | inr other ↦ cc (let g : none ≡ some (decodes v) = rw other at e in g)
]

pub differ : (a b : String) → a == b ≡ false → a ≢ b
differ a b h e = cc (h, (eq_iff a b).1 e)
