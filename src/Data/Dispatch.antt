-- ===== src/Data/Dispatch.antt =====
-- server/data/requests.go: which requests an agent is sent at a sync, and what the database then
-- records of them.
pub mod Keeps
pub mod Spec
pub mod Valid
pub mod Added
pub mod Delivered
use Prim.Native.Char.{code}
use unify_em.Base.{
  ℕ, ◌+◌, ◌*◌, String, ◌≡◌, Bool, true, false, Option, none, some, List, [], ◌∷◌, ◌++◌, ◌||◌, ◌&&◌,
  not, if◌then◌else◌, Dict, lookup, insert, erase, ◌==◌, ltb, leb, nat_eq, Exec, ◌>>=◌, ◌>>◌, pure,
  raise, ignore, wrapping, Error, fault, agent_id_required,
}
use unify_em.Schema.{
  AgentRequest, AgentRequestRecord, RequestStatus, new, pending, complete, invalid,
  new_db_agent_request,
}
use unify_em.Bolt.{Bolt}
use unify_em.Commands.Validate.{Invalid, validate}
use unify_em.Db.Bucket.{Db}
use unify_em.Db.Requests.{set_agent_request, get_agent_requests}
use unify_em.Db.Agents.{agent_exists}
use unify_em.Data.Config.{ServerConfig}

-- The file server's directory (`none` where the file is not there, else its hash), and the path of
-- `url.Parse`.
pub record Files : Type 0 where
  pub hash_of : String → Option String
  pub url_path : String → Option String

abbrev minute_ns : ℕ
minute_ns = 60000000000

-- strings.ContainsAny(file, "/\\")
has_separator : String → Bool
has_separator String.[] = false
has_separator (String.◌∷◌ c s) = nat_eq (code c) b'/' || nat_eq (code c) 92 || has_separator s

-- strings.HasPrefix(file, ".")
is_hidden : String → Bool
is_hidden String.[] = false
is_hidden (String.◌∷◌ c s) = nat_eq (code c) b'.'

or_no_hash : Option String → String
or_no_hash none = ""
or_no_hash (some h) = h

unfoldable pub get_hash_of_file : Files → String → String
unfolding has_separator is_hidden or_no_hash
get_hash_of_file fs file =
    if file == "" || has_separator file || is_hidden file then "" else or_no_hash (fs.hash_of file)

-- The last of strings.Split(path, "/"), as a scan from the left.
last_part : String → String → String
last_part part String.[] = part
last_part part (String.◌∷◌ c s) = last_part (if nat_eq (code c) b'/' then s else part) s

-- `s` itself is the last part where it holds no separator.
get_filename : Files → String → Option String
unfolding last_part
get_filename fs url = elim (fs.url_path url) [
  | none ↦ none
  | some path ↦ some (last_part path path)
]

-- strings.ToLower(h) == "false"; no character outside ASCII has one of these letters as its lower case
abbrev is_letter : ℕ → ℕ → Bool
is_letter n lower = nat_eq n lower || nat_eq (n + 32) lower

is_false : String → Bool
is_false (String.◌∷◌ a (String.◌∷◌ b (String.◌∷◌ c (String.◌∷◌ d (String.◌∷◌ e String.[]))))) =
    is_letter (code a) b'f'
    && is_letter (code b) b'a'
    && is_letter (code c) b'l'
    && is_letter (code d) b's'
    && is_letter (code e) b'e'
is_false s = false

upgrade_hash : Files → Option String → Dict String → Dict String
upgrade_hash fs none params = insert "hash" (get_hash_of_file fs "deploy.json") params
upgrade_hash fs (some h) params = if is_false h then erase "hash" params else insert "hash" h params

hashed_download : Files → Dict String → Option String → Option (Dict String)
hashed_download fs params none = none
hashed_download fs params (some file) = some (insert "hash" (get_hash_of_file fs file) params)

download_hash : Files → Option String → Dict String → Option (Dict String)
unfolding hashed_download get_filename
download_hash fs none params = none
download_hash fs (some url) params = hashed_download fs params (get_filename fs url)

-- The parameters that the agent is sent; `none` is the `continue` of a download with no usable URL.
unfoldable pub with_hash : Files → AgentRequestRecord → Option (Dict String)
unfolding download_hash upgrade_hash is_false
with_hash fs r =
    if r.request == "download_execute"
    then download_hash fs (lookup "url" r.parameters) r.parameters
    else if r.request == "upgrade"
    then some (upgrade_hash fs (lookup "hash" r.parameters) r.parameters)
    else some r.parameters

abbrev pub is_new : RequestStatus → Bool
is_new new = true
is_new _ = false

abbrev pub is_pending : RequestStatus → Bool
is_pending pending = true
is_pending _ = false

-- Selected: new, or pending with the delay over and a try left.
unfoldable pub selected : ServerConfig → ℕ → AgentRequestRecord → Bool
selected conf now r =
    is_new r.status
    || (is_pending r.status
        && ltb (r.last_updated + conf.request_retry_delay * minute_ns) now
        && ltb r.send_count conf.request_retries)

abbrev pub to_agent : AgentRequestRecord → Dict String → AgentRequest
to_agent r params = record {
  created = r.time_created;
  requester = r.requester;
  request = r.request;
  ack_required = false;
  request_id = r.request_id;
  agent_id = "";
  parameters = params;
}

-- The record of a request that has been sent.
abbrev pub sent : Bool → AgentRequestRecord → Dict String → AgentRequestRecord
sent mark_sent r params = record r {
  parameters = params;
  status = if mark_sent && not r.ack_required then complete else pending;
  send_count = r.send_count + 1;
}

module _ ⦃B : Bolt⦄ (fs : Files) (conf : ServerConfig) (now : ℕ) (mark_sent : Bool) where
  pub send_valid :
      AgentRequestRecord → Option (Dict String) → List AgentRequest → Exec Db (List AgentRequest)
  send_valid r none acc = pure acc
  send_valid r (some params) acc = do
    ignore (set_agent_request now (sent mark_sent r params))
    pure (acc ++ to_agent r params ∷ [])

  send_checked :
      AgentRequestRecord → Option Invalid → List AgentRequest → Exec Db (List AgentRequest)
  unfolding send_valid
  send_checked r none acc = send_valid r (with_hash fs r) acc
  send_checked r (some e) acc = do
    ignore (set_agent_request now (record r { status = invalid }))
    pure acc

  -- The body of the loop, with `requestList` as an argument.
  send : AgentRequestRecord → List AgentRequest → Exec Db (List AgentRequest)
  unfolding send_checked
  send r acc =
      if selected conf now r then send_checked r (validate r.request r.parameters) acc else pure acc

  pub send_all : List AgentRequestRecord → List AgentRequest → Exec Db (List AgentRequest)
  unfolding send
  send_all [] acc = pure acc
  send_all (r ∷ rest) acc = do acc' ← send r acc; send_all rest acc'

  unfoldable pub agent_requests : String → Exec Db (List AgentRequest)
  unfolding send_all
  agent_requests id = do requests ← get_agent_requests id; send_all requests []

-- The two IDs of AddAgentRequest: the fields, else the parameters, else `fresh` (a new UUID).
unfoldable pub request_agent_id : AgentRequest → Option String
request_agent_id r = if r.agent_id == "" then lookup "agent_id" r.parameters else some r.agent_id

or_fresh : String → String → String
or_fresh fresh id = if id == "" then fresh else id

id_of : Option String → String
id_of none = ""
id_of (some id) = id

unfoldable pub new_request_id : String → AgentRequest → String
unfolding or_fresh id_of
new_request_id fresh r =
    or_fresh fresh
      (if r.request_id == "" then id_of (lookup "request_id" r.parameters) else r.request_id)

-- An ID that was read from the parameters is deleted there.
unfoldable pub request_parameters : AgentRequest → Dict String
request_parameters r = if r.request_id == "" then erase "request_id" r.parameters else r.parameters

abbrev pub new_record : ℕ → String → String → AgentRequest → AgentRequestRecord
new_record now agent_id request_id r = record new_db_agent_request {
  agent_id = agent_id;
  request_id = request_id;
  requester = r.requester;
  request = r.request;
  ack_required = r.ack_required;
  parameters = request_parameters r;
  status = new;
  time_created = now;
  send_count = 0;
  was_cancelled = false;
}

module _ ⦃B : Bolt⦄ where
  store_request : ℕ → String → AgentRequest → Option String → Exec Db String
  store_request now fresh r none = raise (fault agent_id_required)
  store_request now fresh r (some agent_id) = do
    agent_exists agent_id
    wrapping (set_agent_request now (new_record now agent_id (new_request_id fresh r) r))
    pure (new_request_id fresh r)

  unfoldable pub add_agent_request : ℕ → String → AgentRequest → Exec Db String
  unfolding store_request
  add_agent_request now fresh r = store_request now fresh r (request_agent_id r)
