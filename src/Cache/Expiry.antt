-- ===== src/Cache/Expiry.antt =====
-- What a lookup finds, whatever lookups came before it.
use unify_em.Base.{
  ℕ, ◌≤◌, String, ◌≡◌, refl, sym, ap, ◌∙◌, true, Option, none, some, lookup, erase, if◌then◌else◌,
  ◌==◌, lookup-insert, lookup-erase, Bool-cases, inl, inr, arith, eq_iff,
}
use unify_em.Cache.{CacheItem, Cache, is_older_than, set, get_item, get}

-- What is found of an item that the cache may hold.
abbrev pub live : ℕ → ℕ → Option CacheItem → Option String
live now ttl none = none
live now ttl (some v) = if is_older_than now v.created ttl then none else some v.bytes

get_live : (now : ℕ) (f : String) (c : Cache) → (get now f c).0 ≡ live now c.ttl (lookup f c.items)
unfolding get
get_live now f c = at (lookup f c.items)
  where
    at : (o : Option CacheItem) → (get_item now f c o).0 ≡ live now c.ttl o
    at none = refl
    at (some v) = elim (Bool-cases (is_older_than now v.created c.ttl)) [
      | inl e ↦ rw e refl
      | inr e ↦ rw e refl
    ]

-- A lookup finds the bytes that were last set for the key, if they are not older than the time to live,
-- and setting one key does not change what is found for another.
pub get-set :
    (now later : ℕ) (f j bytes : String) (c : Cache)
    → (get later j (set now f bytes c)).0 ≡ (
        if f == j
        then (if is_older_than later now c.ttl then none else some bytes)
        else (get later j c).0)
unfolding set
get-set now later f j bytes c = elim (Bool-cases (f == j)) [
  | inl e ↦
      get_live later j (set now f bytes c)
      ∙ ap (live later c.ttl) (lookup-insert f j (record { bytes = bytes; created = now }) c.items)
      ∙ rw e refl
  | inr e ↦
      get_live later j (set now f bytes c)
      ∙ ap (live later c.ttl) (lookup-insert f j (record { bytes = bytes; created = now }) c.items)
      ∙ rw e (sym (get_live later j c))
]

stays_old :
    (now later t ttl : ℕ)
    → now ≤ later
    → is_older_than now t ttl ≡ true
    → is_older_than later t ttl ≡ true
unfolding is_older_than
stays_old now later t ttl h e = ground arith

module _ (now later : ℕ) (f j : String) (c : Cache) (order : now ≤ later) where
  erased_live :
      (v : CacheItem)
      → lookup f c.items ≡ some v
      → is_older_than now v.created c.ttl ≡ true
      → live later c.ttl (if f == j then none else lookup j c.items)
        ≡ live later c.ttl (lookup j c.items)
  erased_live v at_f old = elim (Bool-cases (f == j)) [
    | inr e ↦ rw e refl
    | inl e ↦
        let here : lookup j c.items ≡ some v =
          ap (λ k. lookup k c.items) (sym ((eq_iff f j).0 e)) ∙ at_f in
        rw (e, here, stays_old now later v.created c.ttl order old) refl
  ]

  after_item :
      (o : Option CacheItem)
      → lookup f c.items ≡ o
      → (get later j (get_item now f c o).1).0 ≡ (get later j c).0
  unfolding get_item
  after_item none at_f = refl
  after_item (some v) at_f = elim (Bool-cases (is_older_than now v.created c.ttl)) [
    | inr e ↦ rw e refl
    | inl e ↦
        let dropped : Cache = record c { items = erase f c.items } in
        rw e (
          get_live later j dropped
          ∙ ap (live later c.ttl) (lookup-erase f j c.items)
          ∙ erased_live v at_f e
          ∙ sym (get_live later j c))
  ]

-- Dropping expired items is not seen: a later lookup finds the same, whether or not another lookup came
-- before it.
pub get-get :
    (now later : ℕ) (f j : String) (c : Cache)
    → now ≤ later
    → (get later j (get now f c).1).0 ≡ (get later j c).0
unfolding get
get-get now later f j c h = after_item now later f j c h (lookup f c.items) refl
