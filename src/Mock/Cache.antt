-- ===== src/Mock/Cache.antt =====
-- atomefin/mock/server_options.go: idempotencyCache, a map from keys to the elements of a list in
-- the order of their last use. An element has an address, which the map holds.
pub mod Orders
pub mod Invariant
pub mod Refinement
pub mod Runs
pub mod Retention
use atome_fin_go_sdk.Base.{
  [], ◌∷◌, ℕ, suc, Option, none, some, List, ◌==◌, leb, length, if◌then◌else◌, Bytes, le_zero, Dict,
  get, put, remove, ◌⊎◌, inl, inr,
}
use atome_fin_go_sdk.Client.Headers.{Header}

pub record CacheEntry : Type 0 where
  pub key : Bytes
  pub status : ℕ
  pub body : Bytes
  pub headers : Header

-- `list.Element`, with its address.
pub record Element : Type 0 where
  pub address : ℕ
  pub value : CacheEntry

-- `next` is the address of the element that is made next.
pub record IdempotencyCache : Type 0 where
  pub cap : ℕ
  pub items : Dict ℕ
  pub order : List Element
  pub next : ℕ

unfoldable pub new_idempotency_cache : (capacity : ℕ) → IdempotencyCache
new_idempotency_cache capacity = record {
  cap = if le_zero capacity then 1024 else capacity;
  items = [];
  order = [];
  next = 0;
}

-- `container/list`: the element at an address, the list without it, and `Back`.
unfoldable pub element_at : ℕ → List Element → Option Element
element_at a [] = none
element_at a (x ∷ xs) = if x.address == a then some x else element_at a xs

unfoldable pub unlink : ℕ → List Element → List Element
unlink a [] = []
unlink a (x ∷ xs) = let rest = unlink a xs in if x.address == a then xs else x ∷ rest

unfoldable pub back : List Element → Option Element
back [] = none
back (x ∷ []) = some x
back (x ∷ y ∷ xs) = back (y ∷ xs)

move_to_front : Element → List Element → List Element
move_to_front x xs = x ∷ unlink x.address xs

found : IdempotencyCache → Option Element → Option CacheEntry × IdempotencyCache
unfolding move_to_front
found c none = (none, c)
found c (some x) = (some x.value, record c { order = move_to_front x c.order })

with_address : IdempotencyCache → Option ℕ → Option CacheEntry × IdempotencyCache
unfolding found
with_address c none = (none, c)
with_address c (some a) = found c (element_at a c.order)

-- `Get`; a key of the map has its element in the list.
unfoldable pub cache_get : Bytes → IdempotencyCache → Option CacheEntry × IdempotencyCache
unfolding with_address
cache_get key c = with_address c (get key c.items)

overwrite : CacheEntry → IdempotencyCache → Option Element → IdempotencyCache
unfolding move_to_front
overwrite e c none = c
overwrite e c (some x) = record c { order = move_to_front (record x { value = e }) c.order }

pub evict : IdempotencyCache → Option Element → IdempotencyCache
evict c none = c
evict c (some oldest) = record c {
  order = unlink oldest.address c.order;
  items = remove oldest.value.key c.items;
}

pub push : Bytes → CacheEntry → IdempotencyCache → IdempotencyCache
push key e c = record c {
  order = record { address = c.next; value = e } ∷ c.order;
  items = put key c.next c.items;
  next = suc c.next;
}

unfoldable pub insert : Bytes → CacheEntry → IdempotencyCache → IdempotencyCache
unfolding evict push
insert key e c = push key e (if leb c.cap (length c.order) then evict c (back c.order) else c)

put_at : Bytes → CacheEntry → IdempotencyCache → Option ℕ → IdempotencyCache
unfolding insert overwrite
put_at key e c none = insert key e c
put_at key e c (some a) = overwrite e c (element_at a c.order)

unfoldable pub cache_put : Bytes → CacheEntry → IdempotencyCache → IdempotencyCache
unfolding put_at
cache_put key e c = put_at key e c (get key c.items)

unfoldable pub cache_reset : IdempotencyCache → IdempotencyCache
cache_reset c = record c { items = []; order = [] }
