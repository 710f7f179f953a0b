-- ===== src/Data/Dispatch/Spec/Sources.antt =====
-- The records that GetAgentRequests reads: each from the bucket, with an ID of its own.
use mathlib.Core.List.{Memᴰ}
use mathlib.Core.Path.{subst}
use unify_em.Base.{
  String, ◌≡◌, refl, sym, ap, ◌∙◌, Bool, true, false, Option, none, some, some_inj, List, [], ◌∷◌,
  ◌==◌, eq_iff, eq_refl, Dict, lookup, Bool-cases, Option-cases, inl, inr, All, if◌then◌else◌,
}
use unify_em.Schema.{AgentRequestRecord}
use unify_em.Bolt.{DistinctKeys}
use unify_em.Db.Bucket.{Stored, decodes, garbage}
use unify_em.Db.Requests.Reads.{readable, owned}
use unify_em.Data.Dispatch.Spec.{push, choose}

-- No two of the records have the same ID.
abbrev pub DistinctIds : List AgentRequestRecord → Type 0
DistinctIds [] = Unit
DistinctIds (r ∷ rs) = All (λ x. (x.request_id == r.request_id) ≡ false) rs × DistinctIds rs

abbrev pub Source : {A C : Type 0} → (A → Option C) → C → List A → Type 0
Source {A} f c xs = (a : A) × Memᴰ a xs × (f a ≡ some c)

choose_step :
    {A C : Type 0} (f : A → Option C) (c : C) (x : A) (xs : List A) (o : Option C)
    → f x ≡ o
    → (Memᴰ c (choose f xs) → Source f c xs)
    → Memᴰ c (push o (choose f xs))
    → Source f c (x ∷ xs)
choose_step f c x xs none e later m = let (a, here, g) = later m in (a, Memᴰ.tail here, g)
choose_step f c x xs (some b) e later (Memᴰ.head same) = (x, Memᴰ.head refl, e ∙ ap some (sym same))
choose_step f c x xs (some b) e later (Memᴰ.tail n) =
    let (a, here, g) = later n in (a, Memᴰ.tail here, g)

pub chosen_from :
    {A C : Type 0} (f : A → Option C) (c : C) (xs : List A) → Memᴰ c (choose f xs) → Source f c xs
chosen_from f c [] m = elim m [ ]
chosen_from f c (x ∷ xs) m = choose_step f c x xs (f x) refl (λ n. chosen_from f c xs n) m

owned_step :
    (id : String) (r x : AgentRequestRecord) (rs : List AgentRequestRecord) (b : Bool)
    → (x.agent_id == id) ≡ b
    → (Memᴰ r (owned id rs) → Memᴰ r rs × (r.agent_id ≡ id))
    → Memᴰ r (if b then x ∷ owned id rs else owned id rs)
    → Memᴰ r (x ∷ rs) × (r.agent_id ≡ id)
owned_step id r x rs false e later m = let (here, own) = later m in (Memᴰ.tail here, own)
owned_step id r x rs true e later (Memᴰ.head same) =
    (Memᴰ.head same, ap (λ y. y.agent_id) same ∙ (eq_iff x.agent_id id).0 e)
owned_step id r x rs true e later (Memᴰ.tail n) = let (here, own) = later n in (Memᴰ.tail here, own)

pub owned_from :
    (id : String) (r : AgentRequestRecord) (rs : List AgentRequestRecord)
    → Memᴰ r (owned id rs)
    → Memᴰ r rs × (r.agent_id ≡ id)
owned_from id r [] m = elim m [ ]
owned_from id r (x ∷ rs) m =
    owned_step id r x rs (x.agent_id == id) refl (λ n. owned_from id r rs n) m

All-owned :
    (P : AgentRequestRecord → Type 0) (id : String) (rs : List AgentRequestRecord)
    → All P rs
    → All P (owned id rs)
All-owned P id [] h = tt
All-owned P id (x ∷ rs) h = elim (Bool-cases (x.agent_id == id)) [
  | inl e ↦ rw e (h.0, All-owned P id rs h.1)
  | inr e ↦ rw e (All-owned P id rs h.1)
]

pub owned-DistinctIds :
    (id : String) (rs : List AgentRequestRecord) → DistinctIds rs → DistinctIds (owned id rs)
owned-DistinctIds id [] h = tt
owned-DistinctIds id (x ∷ rs) h = elim (Bool-cases (x.agent_id == id)) [
  | inl e ↦ rw e (All-owned _ id rs h.0, owned-DistinctIds id rs h.1)
  | inr e ↦ rw e (owned-DistinctIds id rs h.1)
]

-- Each record of the bucket has its own key.
abbrev pub OwnKeys : Dict (Stored AgentRequestRecord) → Type 0
OwnKeys [] = Unit
OwnKeys ((j, garbage) ∷ m) = OwnKeys m
OwnKeys ((j, decodes r) ∷ m) = (r.request_id ≡ j) × OwnKeys m

-- The records of a bucket whose every key is another than this one.
keys_apart :
    (j : String) (m : Dict (Stored AgentRequestRecord)) (rs : List AgentRequestRecord)
    → lookup j m ≡ none
    → OwnKeys m
    → readable m ≡ some rs
    → All (λ x. (x.request_id == j) ≡ false) rs
keys_apart j [] rs free own h = subst (All (λ x. (x.request_id == j) ≡ false)) (some_inj h) tt
keys_apart j ((k, garbage) ∷ m) rs free own h = cc
keys_apart j ((k, decodes r) ∷ m) rs free own h = elim (Option-cases (readable m)) [
  | inl gone ↦ cc (let g : none ≡ some rs = rw gone at h in g)
  | inr (tail, got) ↦ elim (Bool-cases (k == j)) [
    | inl same ↦ cc (let g : some (decodes r) ≡ none = rw same at free in g)
    | inr apart ↦
        subst (All (λ x. (x.request_id == j) ≡ false)) (some_inj (rw got at h))
          (ap (λ i. i == j) own.0 ∙ apart, keys_apart j m tail (rw apart at free) own.1 got)
  ]
]

pub readable-DistinctIds :
    (m : Dict (Stored AgentRequestRecord)) (rs : List AgentRequestRecord)
    → DistinctKeys m
    → OwnKeys m
    → readable m ≡ some rs
    → DistinctIds rs
readable-DistinctIds [] rs d own h = subst DistinctIds (some_inj h) tt
readable-DistinctIds ((k, garbage) ∷ m) rs d own h = cc
readable-DistinctIds ((k, decodes r) ∷ m) rs d own h = elim (Option-cases (readable m)) [
  | inl gone ↦ cc (let g : none ≡ some rs = rw gone at h in g)
  | inr (tail, got) ↦ subst DistinctIds (some_inj (rw got at h)) (
    subst (λ i. All (λ x. (x.request_id == i) ≡ false) tail) (sym own.0)
        (keys_apart k m tail d.0 own.1 got),
    readable-DistinctIds m tail d.1 own.1 got,
  )
]

in_tail :
    (k j : String) (x : Stored AgentRequestRecord) (v : AgentRequestRecord)
    (m : Dict (Stored AgentRequestRecord))
    → lookup k m ≡ none
    → lookup j m ≡ some (decodes v)
    → lookup j ((k, x) ∷ m) ≡ some (decodes v)
in_tail k j x v m free e = elim (Bool-cases (k == j)) [
  | inl same ↦ cc (free, e, (eq_iff k j).0 same)
  | inr apart ↦ rw apart e
]

read_step :
    (k : String) (x : AgentRequestRecord) (m : Dict (Stored AgentRequestRecord))
    (tail : List AgentRequestRecord) (r : AgentRequestRecord)
    → lookup k m ≡ none
    → x.request_id ≡ k
    → (Memᴰ r tail → lookup r.request_id m ≡ some (decodes r))
    → Memᴰ r (x ∷ tail)
    → lookup r.request_id ((k, decodes x) ∷ m) ≡ some (decodes r)
read_step k x m tail r free own later (Memᴰ.head same) =
    rw (ap (λ i. k == i) (ap (λ y. y.request_id) same ∙ own) ∙ eq_refl k)
      (ap (λ y. some (decodes y)) (sym same))
read_step k x m tail r free own later (Memᴰ.tail n) =
    in_tail k r.request_id (decodes x) r m free (later n)

-- A record that was read stands under its ID.
pub read_from :
    (m : Dict (Stored AgentRequestRecord)) (rs : List AgentRequestRecord) (r : AgentRequestRecord)
    → DistinctKeys m
    → OwnKeys m
    → readable m ≡ some rs
    → Memᴰ r rs
    → lookup r.request_id m ≡ some (decodes r)
read_from [] rs r d own h i = elim (subst (Memᴰ r) (sym (some_inj h)) i) [ ]
read_from ((k, garbage) ∷ m) rs r d own h i = cc
read_from ((k, decodes x) ∷ m) rs r d own h i = elim (Option-cases (readable m)) [
  | inl gone ↦ cc (let g : none ≡ some rs = rw gone at h in g)
  | inr (tail, got) ↦
      read_step k x m tail r d.0 own.0 (λ n. read_from m tail r d.1 own.1 got n)
        (subst (Memᴰ r) (sym (some_inj (rw got at h))) i)
]

pub entries_own :
    (m : Dict (Stored AgentRequestRecord))
    → DistinctKeys m
    → ((k : String) (v : AgentRequestRecord) → lookup k m ≡ some (decodes v) → v.request_id ≡ k)
    → OwnKeys m
entries_own [] d h = tt
entries_own ((k, garbage) ∷ m) d h =
    entries_own m d.1 λ j v e. h j v (in_tail k j garbage v m d.0 e)
entries_own ((k, decodes r) ∷ m) d h = (
  h k r (rw eq_refl refl),
  entries_own m d.1 (λ j v e. h j v (in_tail k j (decodes r) v m d.0 e)),
)
