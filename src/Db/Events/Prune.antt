-- ===== src/Db/Events/Prune.antt =====
-- server/db/events.go: PruneEvents. Its calls of the logger panic where the database has none, and a
-- panic ends the transaction without keeping anything.
pub mod Kept
use unify_em.Base.{
  ℕ, ◌+◌, ◌*◌, ◌/◌, String, ◌≡◌, Bool, true, false, Option, none, some, List, [], ◌∷◌, ◌++◌,
  if◌then◌else◌, ltb, Dict, Error, fault, Outcome, ok, err, panic, Exec, bucket_not_found,
  write_failed,
}
use unify_em.Schema.{AgentEvent}
use unify_em.Bolt.{Bolt}
use unify_em.Db.Bucket.{Db, Stored}
use unify_em.Db.Requests.{second_ns}
use unify_em.Db.Events.Query.{read_time, and_then}

-- eventTime < cutoffTime, without a subtraction. In a key that is not read, eventTime is 0 or the
-- number that was read before the error; such a key is deleted either way.
abbrev pub is_due : ℕ → ℕ → Option ℕ → Bool
is_due now days (some t) = ltb (t + days * 86400) (now / second_ns)
is_due now days none = true

-- A call of the logger, then what follows.
abbrev pub logged {ℓ} : {A : Type ℓ} → Bool → Outcome A → Outcome A
logged true o = o
logged false o = panic

module _ ⦃B : Bolt⦄ where
  abbrev pub or_unchanged {ℓ} : {A : Type ℓ} → A → Option A → A
  or_unchanged c none = c
  or_unchanged c (some c') = c'

  -- The deletion of the collected keys; where one fails the loop goes on.
  delete_keys :
      Bool → List String → B.Bucket (Stored AgentEvent) → Outcome (B.Bucket (Stored AgentEvent))
  delete_keys has_logger [] child = ok child
  delete_keys has_logger (key ∷ keys) child =
      logged has_logger (delete_keys has_logger keys (or_unchanged child (B.delete child key)))

  -- A key that is not read is logged and deleted while the loop runs.
  drop_bad :
      Bool
      → Option ℕ
      → String
      → B.Bucket (Stored AgentEvent)
      → Outcome (B.Bucket (Stored AgentEvent))
  drop_bad has_logger (some t) key child = ok child
  drop_bad has_logger none key child =
      logged has_logger (ok (or_unchanged child (B.delete child key)))

  stored_child :
      Option (B.Bucket (B.Bucket (Stored AgentEvent)))
      → Outcome (B.Bucket (B.Bucket (Stored AgentEvent)))
  stored_child none = err (fault write_failed)
  stored_child (some parent) = ok parent

  module _ (has_logger : Bool) (now days : ℕ) where
    collect :
        List String
        → Dict (Stored AgentEvent)
        → B.Bucket (Stored AgentEvent)
        → Outcome (B.Bucket (Stored AgentEvent))
    unfolding delete_keys drop_bad
    collect due [] child = delete_keys has_logger due child
    collect due ((key, v) ∷ rest) child =
        and_then (drop_bad has_logger (read_time key) key child)
          (collect (if is_due now days (read_time key) then due ++ key ∷ [] else due) rest)

    prune_children :
        Dict (B.Bucket (Stored AgentEvent))
        → B.Bucket (B.Bucket (Stored AgentEvent))
        → Outcome (B.Bucket (B.Bucket (Stored AgentEvent)))
    unfolding collect stored_child
    prune_children [] parent = ok parent
    prune_children ((id, child) ∷ rest) parent =
        and_then (collect [] (B.entries child) child)
          λ pruned. and_then (stored_child (B.put parent id pruned)) (prune_children rest)

  -- How the transaction ends.
  transaction_end : Db → Outcome (B.Bucket (B.Bucket (Stored AgentEvent))) → Outcome (Unit {0}) × Db
  transaction_end d (ok parent) = (ok tt, record d { events = some parent })
  transaction_end d (err e) = (err e, d)
  transaction_end d panic = (panic, d)

  prune_parent :
      ℕ → ℕ → Db → Option (B.Bucket (B.Bucket (Stored AgentEvent))) → Outcome (Unit {0}) × Db
  unfolding transaction_end prune_children
  prune_parent now days d none = (err (fault bucket_not_found), d)
  prune_parent now days d (some parent) =
      transaction_end d (prune_children d.has_logger now days (B.entries parent) parent)

  unfoldable pub prune_events : ℕ → ℕ → Exec Db (Unit {0})
  unfolding prune_parent
  prune_events now days d = prune_parent now days d d.events
