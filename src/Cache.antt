-- ===== src/Cache.antt =====
-- `MemoryCache` of packages/core/src/cache/index.ts: entries in the order of the map, which a hit
-- moves to the end and a write over an existing key leaves in place. Times and lifetimes are
-- natural numbers of seconds.
pub mod Laws
use oidfed.Common.{
  ℕ, ◌+◌, Str, Dict, get, put, delete, has, length, ltb, leb, Bool, true, false, not, ◌&&◌, Option,
  none, some, List, [], ◌∷◌, if◌then◌else◌,
}

pub record CacheEntry (V : Type 0) : Type 0 where
  pub value : V
  pub expires_at : ℕ

pub record MemoryCache (V : Type 0) : Type 0 where
  pub store : Dict (CacheEntry V)
  pub max_entries : ℕ

module _ {V : Type 0} where
  unfoldable pub create : ℕ → MemoryCache V
  create max = record { store = []; max_entries = max }

  -- `get(key)` at a time: what is found, and the cache after it.
  unfoldable pub lookup : Str → ℕ → MemoryCache V → Option V × MemoryCache V
  lookup key now c = elim (get key c.store) [
    | none ↦ (none, c)
    | some entry ↦
        if leb entry.expires_at now
        then (none, record c { store = delete key c.store })
        else (some entry.value, record c { store = put key entry (delete key c.store) })
  ]

  -- `store.delete(store.keys().next().value)`
  abbrev pub drop_first : Dict (CacheEntry V) → Dict (CacheEntry V)
  drop_first [] = []
  drop_first ((k, e) ∷ d) = delete k ((k, e) ∷ d)

  -- `set(key, value, ttlSeconds)` at a time.
  unfoldable pub store_value : Str → V → ℕ → ℕ → MemoryCache V → MemoryCache V
  store_value key v ttl now c =
      let room =
        if leb c.max_entries (length c.store) && not (has key c.store)
        then drop_first c.store
        else c.store in
      record c { store = put key (record { value = v; expires_at = now + ttl }) room }

  -- `delete(key)`
  unfoldable pub remove : Str → MemoryCache V → MemoryCache V
  remove key c = record c { store = delete key c.store }

  -- `clear()`
  unfoldable pub clear : MemoryCache V → MemoryCache V
  clear c = record c { store = [] }

pub data Operation (V : Type 0) : Type 0 where
  get_at : Str → ℕ → Operation V
  set_at : Str → V → ℕ → ℕ → Operation V
  delete_key : Str → Operation V
  clear_all : Operation V

module _ {V : Type 0} where
  unfoldable pub step : Operation V → MemoryCache V → MemoryCache V
  step (get_at key now) c = (lookup key now c).1
  step (set_at key v ttl now) c = store_value key v ttl now c
  step (delete_key key) c = remove key c
  step clear_all c = clear c

  unfoldable pub run : List (Operation V) → MemoryCache V → MemoryCache V
  run [] c = c
  run (o ∷ os) c = run os (step o c)
