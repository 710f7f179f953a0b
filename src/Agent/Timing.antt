-- ===== src/Agent/Timing.antt =====
-- agent/main.go, syncTime, with RetryRequired of agent/communications/comms.go: when a round is due.
use Prim.Native.Nat.{◌-◌}
use unify_em.Base.{ℕ, String, Bool, true, false, if◌then◌else◌, ◌==◌, leb}
use unify_em.Base.Int.{ℤ, pos, negsuc, ltb_ℤ}
use unify_em.Config.Params.{to_int, get}
use unify_em.Queue.Responses.{is_pending}
use unify_em.Agent.Rounds.{Comms}

-- A difference of two times.
abbrev pub elapsed : ℕ → ℕ → ℤ
elapsed now last = if leb last now then pos (now - last) else negsuc (last - now - 1)

-- elapsed > conf.AC.Get(key).Int64()
abbrev pub over : String → ℤ → Comms → Bool × Comms
over key t c = let (v, p) = get key c.agent_set in (ltb_ℤ (to_int v) t, record c { agent_set = p })

-- RetryRequired
unfoldable pub retry_required : Comms → Bool × Comms
retry_required c =
    let s = c.session in
    if s.retry_required
    then (true, record c { session = record s { retry_required = false } })
    else (s.jwt == "", c)

-- One test of syncTime: where `on` holds and the time is over the setting; else the next test decides.
or_else : Bool × Comms → (Comms → Bool × Comms) → Bool × Comms
or_else (true, c) next = (true, c)
or_else (false, c) next = next c

if_on : Bool → String → ℤ → Comms → Bool × Comms
if_on on key t c = if on then over key t c else (false, c)

retry_test : ℤ → Bool × Comms → Bool × Comms
unfolding if_on
retry_test t (required, c) = if_on required "sync_retry" t c

-- syncTime
unfoldable pub sync_time : ℤ → Comms → Bool × Comms
unfolding or_else if_on retry_test
sync_time t c = or_else (over "sync_interval" t c) λ c1.
    or_else (if_on (is_pending c1.responses) "sync_pending" t c1)
      λ c2. or_else (if_on c2.lost "sync_lost" t c2) λ c3. retry_test t (retry_required c3)
