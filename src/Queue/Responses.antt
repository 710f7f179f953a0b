-- ===== src/Queue/Responses.antt =====
-- agent/queues/response.go: the responses that wait for the next sync, and whether a status is among
-- them.
pub mod Restored
use unify_em.Base.{
  ℕ, zero, suc, String, Bool, true, false, ◌||◌, Option, none, some, List, [], ◌∷◌, ◌++◌,
  if◌then◌else◌, ltb, length, ◌==◌,
}
use unify_em.Schema.{AgentResponse}
use unify_em.Queue.{Channel, new_queue, add, read, size}

pub record ResponseQueue : Type 0 where
  pub queue : Channel AgentResponse
  pub status_pending : Bool

abbrev pub new_response_queue : ℕ → ResponseQueue
new_response_queue n = record { queue = new_queue n; status_pending = false }

abbrev pub is_status : AgentResponse → Bool
is_status resp = resp.cmd == "status"

sent_to : AgentResponse → ResponseQueue → Option (Channel AgentResponse) → Option ResponseQueue
sent_to resp q none = none
sent_to resp q (some c) =
    some (record { queue = c; status_pending = is_status resp || q.status_pending })

-- Add; `none` is a call that blocks.
unfoldable pub add_response : AgentResponse → ResponseQueue → Option ResponseQueue
unfolding sent_to
add_response resp q = sent_to resp q (add resp q.queue)

taken :
    ResponseQueue
    → Option AgentResponse × Channel AgentResponse
    → Option AgentResponse × ResponseQueue
taken q (some resp, c) = (
  some resp,
  record { queue = c; status_pending = if is_status resp then false else q.status_pending },
)
taken q (none, c) = (none, record { queue = c; status_pending = false })

-- Read
unfoldable pub read_response : ResponseQueue → Option AgentResponse × ResponseQueue
unfolding taken
read_response q = taken q (read q.queue)

-- The loop of ReadAll on fuel; `none` is fuel that ran out.
unfoldable pub read_loop :
    ℕ → ResponseQueue → List AgentResponse → Option (List AgentResponse × ResponseQueue)
read_loop zero q acc = none
read_loop (suc fuel) q acc =
    let (o, q') = read_response q in
    elim o [
      | none ↦ some (acc, record q' { status_pending = false })
      | some resp ↦ read_loop fuel q' (acc ++ resp ∷ [])
    ]

-- ReadAll, whose loop ends after the responses that are there.
unfoldable pub read_all : ResponseQueue → Option (List AgentResponse × ResponseQueue)
read_all q = read_loop (suc (length q.queue.items)) q []

-- ReQueue; `none` is a call that blocks.
unfoldable pub requeue : List AgentResponse → ResponseQueue → Option ResponseQueue
requeue [] q = some q
requeue (resp ∷ rest) q = elim (add_response resp q) [ none ↦ none | some q' ↦ requeue rest q' ]

unfoldable pub is_pending : ResponseQueue → Bool
is_pending q = ltb 0 (length q.queue.items)
