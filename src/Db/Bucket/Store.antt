-- ===== src/Db/Bucket/Store.antt =====
-- What a bucket promises its callers: a map from keys to values. A write or a delete may fail, and
-- then it changes nothing. Trace is the specification, and run_traces shows that bucket.go keeps it.
use unify_em.Base.{
  String, ◌≡◌, ◌≢◌, refl, sym, ap, ◌∙◌, Bool, true, false, Option, none, some, List, [], ◌∷◌, inl,
  inr, if◌then◌else◌, ◌==◌, is_some, Outcome, ok, err, panic, Exec, ◌>>=◌, ◌>>◌, pure, resume,
  Cause, key_not_found, root_cause, Bool-cases,
}
use unify_em.Bolt.{Bolt}
use unify_em.Db.Bucket.{
  Db, Slot, Stored, decodes, garbage, set_data, get_data, delete_data, key_exists, committed,
  deleted, decoded,
}

module _ (V : Type 0) where
  pub data Op : Type 0 where
    put : String → V → Op
    fetch remove check : String → Op

  pub data Answer : Type 0 where
    done missing failed crashed : Answer
    value : V → Answer
    exists : Bool → Answer

  abbrev pub Store : Type 0
  Store = String → Option V

-- One call: the store before it, the call, its run_call and the store after it.
pub data Step {V : Type 0} (m m' : Store V) : Op V → Answer V → Type 0 where
  put_done :
      (k : String) (v : V)
      → ((j : String) → m' j ≡ (if k == j then some v else m j))
      → Step m m' (put k v) done
  put_failed : (k : String) (v : V) → ((j : String) → m' j ≡ m j) → Step m m' (put k v) failed
  fetch_value :
      (k : String) (v : V)
      → m k ≡ some v
      → ((j : String) → m' j ≡ m j)
      → Step m m' (fetch k) (value v)
  fetch_missing :
      (k : String) → m k ≡ none → ((j : String) → m' j ≡ m j) → Step m m' (fetch k) missing
  remove_done :
      (k : String)
      → is_some (m k) ≡ true
      → ((j : String) → m' j ≡ (if k == j then none else m j))
      → Step m m' (remove k) done
  remove_missing :
      (k : String) → m k ≡ none → ((j : String) → m' j ≡ m j) → Step m m' (remove k) missing
  remove_failed :
      (k : String)
      → is_some (m k) ≡ true
      → ((j : String) → m' j ≡ m j)
      → Step m m' (remove k) failed
  check_done :
      (k : String) (b : Bool)
      → b ≡ is_some (m k)
      → ((j : String) → m' j ≡ m j)
      → Step m m' (check k) (exists b)

pub data Trace {V : Type 0} : Store V → List (Op V) → List (Answer V) → Store V → Type 0 where
  stop : (m : Store V) → Trace m [] [] m
  call :
      {op : Op V} {a : Answer V} {m m' m'' : Store V} {ops : List (Op V)} {rest : List (Answer V)}
      → Step m m' op a
      → Trace m' ops rest m''
      → Trace m (op ∷ ops) (a ∷ rest) m''

abbrev not_missing : Cause → Bool
not_missing key_not_found = false
not_missing _ = true

abbrev answer_of : {V : Type 0} → Outcome (Answer V) → Answer V
answer_of (ok a) = a
answer_of (err e) = if not_missing (root_cause e) then failed else missing
answer_of panic = crashed

module _ ⦃B : Bolt⦄ {V : Type 0} (s : Slot V) where
  run_call : Op V → Exec Db (Answer V)
  run_call (put k v) = do set_data s k v; pure done
  run_call (fetch k) = do v ← get_data s k; pure (value v)
  run_call (remove k) = do delete_data s k; pure done
  run_call (check k) = do b ← key_exists s k; pure (exists b)

  -- The calls in order, with what each answers.
  pub run_calls : List (Op V) → Db → List (Answer V) × Db
  run_calls [] d = ([], d)
  run_calls (op ∷ ops) d =
      let (o, d') = run_call op d in let (rest, d'') = run_calls ops d' in (answer_of o ∷ rest, d'')

  abbrev value_of : Option (Stored V) → Option V
  value_of (some (decodes v)) = some v
  value_of _ = none

  abbrev pub store : B.Bucket (Stored V) → Store V
  store b k = value_of (B.get b k)

  -- The bucket is there, and all of it decodes.
  pub record Holds (d : Db) (b : B.Bucket (Stored V)) : Type 0 where
    pub at : s.read d ≡ some b
    pub readable : (k : String) → B.get b k ≢ some garbage

  abbrev After : B.Bucket (Stored V) → Op V → Outcome (Answer V) × Db → Type 0
  After b op p =
      (b' : B.Bucket (Stored V)) × Holds p.1 b' × Step (store b) (store b') op (answer_of p.0)

  if_value :
      (c : Bool) (o w : Option (Stored V))
      → value_of (if c then o else w) ≡ (if c then value_of o else value_of w)
  if_value true o w = refl
  if_value false o w = refl

  if_garbage :
      (c : Bool) (o w : Option (Stored V))
      → o ≢ some garbage
      → w ≢ some garbage
      → (if c then o else w) ≢ some garbage
  if_garbage true o w n m = n
  if_garbage false o w n m = m

  put-After :
      (k : String) (v : V) (d : Db) (b : B.Bucket (Stored V)) (o : Option (B.Bucket (Stored V)))
      → Holds d b
      → B.put b k (decodes v) ≡ o
      → After b (put k v) (resume (λ u. pure done) (committed s d o))
  put-After k v d b none h e = (b, h, put_failed k v (λ j. refl))
  put-After k v d b (some c) h e = (
    c,
    record {
      at = s.read_write c d;
      readable = λ j.
          rw (B.get-put _ b k (decodes v) c e j)
            (if_garbage (k == j) (some (decodes v)) (B.get b j) (λ g. cc) (h.readable j));
    },
    put_done k v (λ j.
        ap value_of (B.get-put _ b k (decodes v) c e j)
        ∙ if_value (k == j) (some (decodes v)) (B.get b j)),
  )

  remove-After :
      (k : String) (d : Db) (b : B.Bucket (Stored V)) (o : Option (B.Bucket (Stored V)))
      → Holds d b
      → is_some (store b k) ≡ true
      → B.delete b k ≡ o
      → After b (remove k) (resume (λ u. pure done) (committed s d o))
  remove-After k d b none h there e = (b, h, remove_failed k there (λ j. refl))
  remove-After k d b (some c) h there e = (
    c,
    record {
      at = s.read_write c d;
      readable = λ j.
          rw (B.get-delete _ b k c e j)
            (if_garbage (k == j) none (B.get b j) (λ g. cc) (h.readable j));
    },
    remove_done k there
        (λ j. ap value_of (B.get-delete _ b k c e j) ∙ if_value (k == j) none (B.get b j)),
  )

  same_value : (o : Option (Stored V)) {w : Option (Stored V)} → w ≡ o → value_of w ≡ value_of o
  same_value o e = ap value_of e

  fetch-After :
      (k : String) (d : Db) (b : B.Bucket (Stored V)) (o : Option (Stored V))
      → Holds d b
      → B.get b k ≡ o
      → After b (fetch k) (resume (λ v. pure (value v)) (decoded o, d))
  fetch-After k d b none h e = (b, h, fetch_missing k (same_value none e) (λ j. refl))
  fetch-After k d b (some garbage) h e = absurd (h.readable k e)
  fetch-After k d b (some (decodes v)) h e =
      (b, h, fetch_value k v (same_value (some (decodes v)) e) (λ j. refl))

  is_some-value : (o : Option (Stored V)) → o ≢ some garbage → is_some (value_of o) ≡ is_some o
  is_some-value none n = refl
  is_some-value (some garbage) n = absurd (n refl)
  is_some-value (some (decodes v)) n = refl

  value-none : (o : Option (Stored V)) → is_some o ≡ false → value_of o ≡ none
  value-none none h = refl
  value-none (some v) h = cc

  removed-After :
      (k : String) (d : Db) (b : B.Bucket (Stored V))
      → Holds d b
      → After b (remove k) (resume (λ u. pure done) (deleted s k d (some b)))
  removed-After k d b h = elim (Bool-cases (is_some (B.get b k))) [
    | inl there ↦ rw there (
        remove-After k d b (B.delete b k) h (is_some-value (B.get b k) (h.readable k) ∙ there) refl)
    | inr gone ↦ rw gone (b, h, remove_missing k (value-none (B.get b k) gone) (λ j. refl))
  ]

  step_taken :
      (op : Op V) (d : Db) (b : B.Bucket (Stored V)) → Holds d b → After b op (run_call op d)
  unfolding run_call set_data get_data delete_data key_exists
  step_taken (put k v) d b h = rw h.at (put-After k v d b (B.put b k (decodes v)) h refl)
  step_taken (fetch k) d b h = rw h.at (fetch-After k d b (B.get b k) h refl)
  step_taken (remove k) d b h = rw h.at (removed-After k d b h)
  step_taken (check k) d b h = rw h.at (
    b,
    h,
    check_done k (is_some (B.get b k)) (sym (is_some-value (B.get b k) (h.readable k))) (λ j. refl),
  )

  -- Any sequence of SetData, GetData, DeleteData and KeyExists on a bucket that is there, and all of
  -- which decodes, answers as the map of its values does, and leaves the bucket holding the map's last
  -- state: each write or delete takes effect or fails and changes nothing, and none is lost.
  pub run_traces :
      (ops : List (Op V)) (d : Db) (b : B.Bucket (Stored V))
      → Holds d b
      → (b' : B.Bucket (Stored V)) × Holds (run_calls ops d).1 b'
        × Trace (store b) ops (run_calls ops d).0 (store b')
  unfolding run_calls
  run_traces [] d b h = (b, h, stop (store b))
  run_traces (op ∷ ops) d b h =
      let (c, holds, step) = step_taken op d b h in
      let (b', holds', trace) = run_traces ops (run_call op d).1 c holds in
      (b', holds', call step trace)
