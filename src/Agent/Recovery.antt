-- ===== src/Agent/Recovery.antt =====
-- agent/global/config.go, the credentials of the service account, and agent/main.go,
-- prepareRecoveryInfo. Checkpoint writes files and is left out.
pub mod Credentials
use Prim.Native.Char.{code}
use Prim.Native.String.{String, ◌++◌ as ◌+++◌}
use unify_em.Base.{ℕ, Bool, true, false, not, ◌&&◌, Option, none, some, if◌then◌else◌, ◌==◌, nat_eq}
use unify_em.Config.Params.{other, get, set, text, to_bool}
use unify_em.Agent.Try.{Try, ◌>>=◌, ◌>>◌, pure, fail}
use unify_em.Agent.Rounds.{Comms, bool_text}

-- schema/recovery.go
pub record RecoveryInfo : Type 0 where
  pub timestamp : ℕ
  pub os : String
  pub hostname : String
  pub service_account : String
  pub service_password : String
  pub bit_locker_info : String

-- What the agent takes from its platform and from Go's libraries: `encrypt` and `decrypt` are given the
-- text and the key.
pub record Machine : Type 0 where
  pub have_service_account : Bool
  pub os : String
  pub hostname : String
  pub bit_locker_info : String
  pub encrypt : String → String → Option String
  pub decrypt : String → String → Option String
  pub key_hash : String → String
  pub info_text : RecoveryInfo → Option String

-- conf.AC.Get and conf.AP.Get, which save a value that the limits change.
abbrev pub setting : String → Try Comms String
setting key c = let (v, p) = get key c.agent_set in (some v, record c { agent_set = p })

abbrev pub own_setting : String → Try Comms String
own_setting key c =
    let (v, p) = get key c.session.agent_private in
    (some v, record c { session = record c.session { agent_private = p } })

abbrev pub set_own : String → String → Try Comms (Unit {0})
set_own key v c =
    let s = c.session in
    (some tt, record c { session = record s { agent_private = set key (text v) s.agent_private } })

-- AP.Set of ConfigRecoveryInfoPending, in SetRecoveryInfoPending too.
abbrev pub set_recovery_pending : Bool → Try Comms (Unit {0})
set_recovery_pending b c =
    let s = c.session in
    (
      some tt,
      record c {
        session = record s {
          agent_private = set "recovery_info_pending" (other (bool_text b)) s.agent_private;
        };
      },
    )

or_fail : {A : Type 0} → Option A → Try Comms A
or_fail none = fail
or_fail (some a) = pure a

-- strings.SplitN(s, ":", 2), where there are two parts
abbrev pub cut : String → Option (String × String)
cut String.[] = none
cut (String.◌∷◌ ch s) =
    let rest = cut s in
    if nat_eq (code ch) b':'
    then some ("", s)
    else elim rest [ none ↦ none | some p ↦ some (String.◌∷◌ ch p.0, p.1) ]

module _ (machine : Machine) where
  stored_credentials : Comms → Try Comms String
  stored_credentials c = if c.credentials == "" then fail else pure c.credentials

  -- SetServiceCredentials
  unfoldable pub set_service_credentials : String → String → Try Comms (Unit {0})
  unfolding or_fail
  set_service_credentials username password =
      if machine.have_service_account
      then (do
        key ← own_setting "ec_public_enc"
        if key == "" then fail else (do
          encrypted ← or_fail (machine.encrypt (username +++ (":" +++ password)) key)
          (λ c. (some tt, record c { credentials = encrypted; credentials_pending = true }))
          set_recovery_pending true))
      else fail

  -- GetServiceCredentials
  unfoldable pub own_service_credentials : Try Comms (String × String)
  unfolding or_fail stored_credentials
  own_service_credentials =
      if machine.have_service_account
      then (do
        stored ← (λ c. stored_credentials c c)
        key ← own_setting "ec_private_enc"
        if key == ""
            then fail
            else (do plain ← or_fail (machine.decrypt stored key); or_fail (cut plain)))
      else fail

  -- GetServiceCredentialsForServer
  unfoldable pub credentials_for_server : Try Comms String
  unfolding or_fail stored_credentials
  credentials_for_server = do
    stored ← (λ c. stored_credentials c c)
    key ← own_setting "server_public_enc"
    if key == "" then fail else (do
      encrypted ← or_fail (machine.encrypt stored key)
      (λ c. (some tt, record c { credentials_pending = false }))
      pure encrypted)

  account_of : Option (String × String) → String × String
  account_of none = ("", "")
  account_of (some account) = account

  recovery_of : ℕ → Option (String × String) → RecoveryInfo
  unfolding account_of
  recovery_of now found = record {
    timestamp = now;
    os = machine.os;
    hostname = machine.hostname;
    service_account = (account_of found).0;
    service_password = (account_of found).1;
    bit_locker_info = machine.bit_locker_info;
  }

  -- buildRecoveryInfo
  unfoldable pub build_recovery_info : ℕ → Try Comms RecoveryInfo
  unfolding recovery_of
  build_recovery_info now c =
      let (found, c') = own_service_credentials c in (some (recovery_of now found), c')

  send_recovery : ℕ → String → String → Try Comms (Unit {0})
  unfolding or_fail
  send_recovery now key hash = do
    info ← build_recovery_info now
    json ← or_fail (machine.info_text info)
    blob ← or_fail (machine.encrypt json key)
    (λ c. (some tt, record c { pending_recovery = blob }))
    set_own "recovery_public_key_hash" hash
    set_recovery_pending false

  -- prepareRecoveryInfo; it fails where the code returns false.
  unfoldable pub prepare_recovery_info : ℕ → Try Comms (Unit {0})
  unfolding send_recovery
  prepare_recovery_info now = do
    enabled ← setting "recovery_info"
    if to_bool enabled
        then (do
          key ← own_setting "recovery_public_key"
          if key == "" then fail else (do
            stored ← own_setting "recovery_public_key_hash"
            pending ← own_setting "recovery_info_pending"
            if (machine.key_hash key == stored) && not (to_bool pending)
                then fail
                else send_recovery now key (machine.key_hash key)))
        else fail
