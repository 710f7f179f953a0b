-- ===== src/Queue/Responses/Restored.antt =====
-- What ReadAll takes, and that ReQueue puts it back.
use mathlib.Core.List.{append-nil, append_assoc}
use unify_em.Base.{
  ℕ, suc, ◌+◌, ◌≡◌, refl, sym, ap, ◌∙◌, Bool, true, false, ◌||◌, some, List, [], ◌∷◌, ◌++◌, ltb,
  length, arith,
}
use Prim.Native.Nat.{◌≤◌}
use unify_em.Schema.{AgentResponse}
use unify_em.Queue.{add, read}
use unify_em.Queue.Responses.{
  ResponseQueue, is_status, add_response, read_response, read_loop, read_all, requeue,
}

abbrev pub any_status : List AgentResponse → Bool
any_status [] = false
any_status (resp ∷ rest) = is_status resp || any_status rest

abbrev pub waiting : List AgentResponse → ℕ → Bool → ResponseQueue
waiting xs n b = record { queue = record { items = xs; capacity = n }; status_pending = b }

looped :
    (xs acc : List AgentResponse) (n : ℕ) (b : Bool)
    → read_loop (suc (length xs)) (waiting xs n b) acc ≡ some (acc ++ xs, waiting [] n false)
unfolding read_loop read_response read
looped [] acc n b = ap (λ l. some (l, waiting [] n false)) (sym (append-nil acc))
looped (x ∷ xs) acc n b =
    looped xs (acc ++ x ∷ []) n _
    ∙ ap (λ l. some (l, waiting [] n false)) (append_assoc acc (x ∷ []) xs)

-- ReadAll takes every response, oldest first, and leaves no status pending.
pub read_all_lem :
    (q : ResponseQueue) → read_all q ≡ some (q.queue.items, waiting [] q.queue.capacity false)
unfolding read_all
read_all_lem q = looped q.queue.items [] q.queue.capacity q.status_pending

pub length-snoc :
    (xs : List AgentResponse) (x : AgentResponse) → length (xs ++ x ∷ []) ≡ length xs + 1
length-snoc [] x = refl
length-snoc (y ∷ xs) x = omega (arith, length-snoc xs x)

pub room :
    (xs : List AgentResponse) (x : AgentResponse) (ys : List AgentResponse) (n : ℕ)
    → length xs + length (x ∷ ys) ≤ n
    → (ltb (length xs) n ≡ true) × (length (xs ++ x ∷ []) + length ys ≤ n)
room xs x ys n h = (ground arith, omega (arith, length-snoc xs x))

or_false : (b : Bool) → (b || false) ≡ b
or_false true = refl
or_false false = refl

pub or_swap : (a b c : Bool) → (b || (a || c)) ≡ ((a || b) || c)
or_swap true true c = refl
or_swap true false c = refl
or_swap false true c = refl
or_swap false false c = refl

pub added :
    (x : AgentResponse) (xs : List AgentResponse) (n : ℕ) (b : Bool)
    → ltb (length xs) n ≡ true
    → add_response x (waiting xs n b) ≡ some (waiting (xs ++ x ∷ []) n (is_status x || b))
unfolding add_response add
added x xs n b h = rw h refl

-- ReQueue appends where there is room.
pub requeue-waiting :
    (rest xs : List AgentResponse) (n : ℕ) (b : Bool)
    → length xs + length rest ≤ n
    → requeue rest (waiting xs n b) ≡ some (waiting (xs ++ rest) n (any_status rest || b))
unfolding requeue
requeue-waiting [] xs n b h = ap (λ l. some (waiting l n b)) (sym (append-nil xs))
requeue-waiting (x ∷ rest) xs n b h =
    let (fits, left) = room xs x rest n h in
    rw (added x xs n b fits, requeue)
      (requeue-waiting rest (xs ++ x ∷ []) n (is_status x || b) left
        ∙ ap (λ l. some (waiting l n (any_status rest || (is_status x || b))))
            (append_assoc xs (x ∷ []) rest)
        ∙ ap (λ c. some (waiting (xs ++ x ∷ rest) n c)) (or_swap (is_status x) (any_status rest) b))
