-- ===== src/Cache/Laws.antt =====
-- What the cache answers, and how much it holds.
use oidfed.Common.{
  ℕ, ◌<◌, ◌≤◌, ◌+◌, Str, Dict, get, put, delete, has, get-put, get-delete, length-put,
  length-delete, length-delete_of_has, str_eq_iff, str_eq_refl, length, leb, ◌≡◌, ◌≢◌, refl, ◌∙◌,
  inl, inr, false, not, ◌&&◌, Option, none, some, List, [], ◌∷◌, arith, Bool-cases, Option-cases,
  if◌then◌else◌,
}
use oidfed.Cache.{
  CacheEntry, MemoryCache, lookup, drop_first, store_value, remove, clear, Operation, get_at,
  set_at, delete_key, clear_all, step, run,
}

module _ {V : Type 0} where
  -- What a reader at a time would get under a key.
  unfoldable pub view : Str → ℕ → MemoryCache V → Option V
  view key now c = elim (get key c.store) [
    | none ↦ none
    | some entry ↦ if leb entry.expires_at now then none else some entry.value
  ]

  lookup-eq-view : (key : Str) (now : ℕ) (c : MemoryCache V) → (lookup key now c).0 ≡ view key now c
  unfolding lookup view
  lookup-eq-view key now c = ground arith

  -- Reading a key changes nothing that a later reader of any key gets.
  pub view-lookup :
      (key j : Str) (now later : ℕ) (c : MemoryCache V)
      → now ≤ later
      → view j later (lookup key now c).1 ≡ view j later c
  unfolding lookup view
  view-lookup key j now later c h = elim (Option-cases (get key c.store)) [
    | inl missing ↦ ground (arith, missing)
    | inr (entry, found) ↦ ground (
      arith,
      found,
      get-put key j entry (delete key c.store),
      get-delete key j c.store,
      str_eq_iff key j,
      str_eq_iff j key,
    )
  ]

  -- The key that a write at capacity evicts.
  abbrev pub first_key : Dict (CacheEntry V) → Option Str
  first_key [] = none
  first_key ((k, e) ∷ d) = some k

  get-drop_first :
      (j : Str) (d : Dict (CacheEntry V)) → first_key d ≢ some j → get j (drop_first d) ≡ get j d
  get-drop_first j [] h = refl
  get-drop_first j ((k, e) ∷ d) h = ground (arith, get-delete k j ((k, e) ∷ d), str_eq_iff k j, h)

  -- A value that is written is read under its key until its lifetime has passed.
  pub view-store_value_self :
      (key : Str) (v : V) (ttl now later : ℕ) (c : MemoryCache V)
      → view key later (store_value key v ttl now c)
        ≡ (if leb (now + ttl) later then none else some v)
  unfolding view store_value
  view-store_value_self key v ttl now later c =
      let room =
        if leb c.max_entries (length c.store) && not (has key c.store)
        then drop_first c.store
        else c.store in
      ground (
        arith,
        str_eq_refl key,
        get-put key key (record { value = v; expires_at = now + ttl }) room,
      )

  -- A write changes what is read under another key only if it evicts that key: it then is the first
  -- key of a full cache, and the key that is written is new.
  pub view-store_value_other :
      (key j : Str) (v : V) (ttl now later : ℕ) (c : MemoryCache V)
      → key ≢ j
      → ((c.max_entries ≤ length c.store) × (has key c.store ≡ false) × (first_key c.store ≡ some j)
          → ⊥)
      → view j later (store_value key v ttl now c) ≡ view j later c
  unfolding view store_value
  view-store_value_other key j v ttl now later c ne stays =
      elim (Bool-cases (leb c.max_entries (length c.store) && not (has key c.store))) [
        | inr roomy ↦
            rw (roomy, store_value) (ground (arith, str_eq_iff key j, get-put key j entry c.store))
        | inl full ↦
            let other : first_key c.store ≢ some j = λ e. stays (ground arith, ground arith, e) in
            rw (full, store_value)
              (ground (
                arith,
                str_eq_iff key j,
                get-put key j entry (drop_first c.store),
                get-drop_first j c.store other,
              ))
      ]
    where
      entry : CacheEntry V
      entry = record { value = v; expires_at = now + ttl }

  first_key-put :
      (j k : Str) (e : CacheEntry V) (d : Dict (CacheEntry V))
      → first_key d ≡ some k
      → first_key (put j e d) ≡ some k
  unfolding put
  first_key-put j k e [] h = cc h
  first_key-put j k e ((i, w) ∷ d) h = ground arith

  first_key-delete : (j : Str) (d : Dict (CacheEntry V)) → first_key (delete j d) ≢ some j
  unfolding delete
  first_key-delete j [] h = cc h
  first_key-delete j ((i, w) ∷ d) h =
      ground (arith, first_key-delete j d, str_eq_iff i j, str_eq_iff j i, str_eq_refl j)

  lookup-moves :
      (j k : Str) (now : ℕ) (c : MemoryCache V)
      → first_key (delete j c.store) ≡ some k
      → view j now c ≢ none
      → first_key (lookup j now c).1.store ≢ some j
  unfolding lookup view
  lookup-moves j k now c others hit e = elim (Option-cases (get j c.store)) [
    | inl missing ↦ hit (rw (missing, view))
    | inr (entry, found) ↦ ground (
      arith,
      found,
      first_key-delete j c.store,
      first_key-put j k entry (delete j c.store) others,
    )
  ]

  -- If a key is read while its value has not expired, and the cache holds an entry besides it, then
  -- what is read under it at a later time is the same after the next write of another key: a hit moves
  -- its entry away from the place that is evicted.
  pub hit-keeps :
      (j key k : Str) (v : V) (ttl now written later : ℕ) (c : MemoryCache V)
      → key ≢ j
      → now ≤ later
      → first_key (delete j c.store) ≡ some k
      → view j now c ≢ none
      → view j later (store_value key v ttl written (lookup j now c).1) ≡ view j later c
  hit-keeps j key k v ttl now written later c ne le others hit =
      view-store_value_other key j v ttl written later (lookup j now c).1 ne not_first
      ∙ view-lookup j j now later c le
    where
      not_first :
          ((lookup j now c).1.max_entries ≤ length (lookup j now c).1.store)
            × (has key (lookup j now c).1.store ≡ false)
            × (first_key (lookup j now c).1.store ≡ some j)
          → ⊥
      not_first (_, _, e) = lookup-moves j k now c others hit e

  lookup-bound :
      (key : Str) (now : ℕ) (c : MemoryCache V)
      → (length (lookup key now c).1.store ≤ length c.store)
        × ((lookup key now c).1.max_entries ≡ c.max_entries)
  unfolding lookup
  lookup-bound key now c = elim (Option-cases (get key c.store)) [
    | inl missing ↦ ground (arith, missing)
    | inr (entry, found) ↦ ground (
      arith,
      found,
      length-delete key c.store,
      length-delete_of_has key c.store,
      length-put key entry (delete key c.store),
      get-delete key key c.store,
      str_eq_refl key,
    )
  ]

  drop_first-length : (d : Dict (CacheEntry V)) → 0 < length d → length (drop_first d) < length d
  unfolding get
  drop_first-length [] h = h
  drop_first-length ((k, e) ∷ d) h =
      length-delete_of_has k ((k, e) ∷ d) (ground (arith, str_eq_refl k))

  store_value-bound :
      (key : Str) (v : V) (ttl now : ℕ) (c : MemoryCache V)
      → 0 < c.max_entries
      → length c.store ≤ c.max_entries
      → length (store_value key v ttl now c).store ≤ c.max_entries
  unfolding store_value
  store_value-bound key v ttl now c pos h =
      let entry : CacheEntry V = record { value = v; expires_at = now + ttl } in
      elim (Bool-cases (leb c.max_entries (length c.store) && not (has key c.store))) [
        | inr roomy ↦ rw (roomy, store_value) (ground (arith, length-put key entry c.store))
        | inl full ↦
            rw (full, store_value)
              (ground (arith, length-put key entry (drop_first c.store), drop_first-length c.store))
      ]

  step-bound :
      (o : Operation V) (c : MemoryCache V)
      → 0 < c.max_entries
      → length c.store ≤ c.max_entries
      → (length (step o c).store ≤ c.max_entries) × ((step o c).max_entries ≡ c.max_entries)
  unfolding step remove clear
  step-bound (get_at key now) c pos h = ground (arith, lookup-bound key now c)
  step-bound (set_at key v ttl now) c pos h =
      (store_value-bound key v ttl now c pos h, unfold store_value in refl)
  step-bound (delete_key key) c pos h = ground (arith, length-delete key c.store)
  step-bound clear_all c pos h = ground arith

  -- With a positive bound, a cache within its bound stays within it through any operations.
  pub run-bound :
      (os : List (Operation V)) (c : MemoryCache V)
      → 0 < c.max_entries
      → length c.store ≤ c.max_entries
      → length (run os c).store ≤ c.max_entries
  unfolding run
  run-bound [] c pos h = h
  run-bound (o ∷ os) c pos h =
      let (fits, same) = step-bound o c pos h in
      let rest = run-bound os (step o c) (omega arith) (omega arith) in omega arith
