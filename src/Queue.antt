-- ===== src/Queue.antt =====
-- server/queue/message.go and agent/queues: queues in memory, each a buffered channel of Go.
pub mod Responses
use unify_em.Base.{
  ℕ, String, Bool, true, false, Option, none, some, List, [], ◌∷◌, ◌++◌, if◌then◌else◌, ltb, length,
}

-- make(chan A, n), with its oldest element first. The queues are never closed.
pub record Channel (A : Type 0) : Type 0 where
  pub items : List A
  pub capacity : ℕ

module _ {A : Type 0} where
  -- RequestQueue and the message queue: Init, Add, Read and Size. `none` is a send that blocks, since
  -- the channel is full.
  abbrev pub new_queue : ℕ → Channel A
  new_queue n = record { items = []; capacity = n }

  unfoldable pub add : A → Channel A → Option (Channel A)
  add a c =
      if ltb (length c.items) c.capacity
      then some (record c { items = c.items ++ a ∷ [] })
      else none

  received : Channel A → List A → Option A × Channel A
  received c [] = (none, c)
  received c (a ∷ rest) = (some a, record c { items = rest })

  -- `none` is the pair of a zero element and false.
  unfoldable pub read : Channel A → Option A × Channel A
  unfolding received
  read c = received c c.items

  unfoldable pub size : Channel A → ℕ
  size c = length c.items

  -- A loop that adds the elements one by one.
  unfoldable pub add_all : List A → Channel A → Option (Channel A)
  unfolding add
  add_all [] c = some c
  add_all (a ∷ rest) c = elim (add a c) [ none ↦ none | some c' ↦ add_all rest c' ]

  -- What the queue holds where that loop ends or blocks: the elements that fitted are in it.
  unfoldable pub fill : List A → Channel A → Channel A
  unfolding add
  fill [] c = c
  fill (a ∷ rest) c = elim (add a c) [ none ↦ c | some c' ↦ fill rest c' ]
