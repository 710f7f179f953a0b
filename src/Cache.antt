-- ===== src/Cache.antt =====
-- common/cache/cache.go: the server keeps the hashes of its files here.
pub mod Expiry
use unify_em.Base.{
  ℕ, ◌-◌, ◌*◌, String, Bool, true, false, Option, none, some, List, [], Dict, lookup, insert, erase,
  if◌then◌else◌, ltb,
}

pub record CacheItem : Type 0 where
  pub bytes : String
  pub created : ℕ

-- A time to live below zero is not modelled.
pub record Cache : Type 0 where
  pub items : Dict CacheItem
  pub ttl : ℕ

abbrev second_ns : ℕ
second_ns = 1000000000

unfoldable pub new_cache : ℕ → Cache
new_cache ttl = record { items = []; ttl = ttl }

unfoldable pub clear : Cache → Cache
clear c = record c { items = [] }

-- TTL
unfoldable pub set_ttl : ℕ → Cache → Cache
set_ttl ttl c = record c { ttl = ttl }

-- A time since `t` that is below zero is not more than any time to live.
unfoldable pub is_older_than : ℕ → ℕ → ℕ → Bool
is_older_than now t s = ltb (s * second_ns) (now - t)

unfoldable pub set : ℕ → String → String → Cache → Cache
set now f bytes c = record c { items = insert f (record { bytes = bytes; created = now }) c.items }

get_item : ℕ → String → Cache → Option CacheItem → Option String × Cache
get_item now f c none = (none, c)
get_item now f c (some v) =
    if is_older_than now v.created c.ttl
    then (none, record c { items = erase f c.items })
    else (some v.bytes, c)

-- The bytes, or nil, and the cache without the item if it has expired.
unfoldable pub get : ℕ → String → Cache → Option String × Cache
unfolding get_item
get now f c = get_item now f c (lookup f c.items)
