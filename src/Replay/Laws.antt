-- ===== src/Replay/Laws.antt =====
-- One-time use, and the bound on the store.
use oidfed.Common.{
  ℕ, ◌<◌, ◌≤◌, Str, get, get-put, get-filter, length-filter, length-put, str_eq_iff, str_eq_refl,
  filter, length, ltb, ◌≡◌, refl, inl, inr, none, some, List, [], ◌∷◌, arith, Option-cases, All,
}
use oidfed.Replay.{
  JtiReplayClaim, MemoryReplayStore, claimed, used, capacity_error, remove_expired, key_of,
  validate_claim, claim_key, use_jti, use_all,
}

-- The key is recorded until `e`.
abbrev pub Recorded : Str → ℕ → MemoryReplayStore → Type 0
Recorded key e store = get key store.entries ≡ some e

remove_expired-Recorded :
    (now : ℕ) (key : Str) (e : ℕ) (store : MemoryReplayStore)
    → now < e
    → Recorded key e store
    → Recorded key e (remove_expired now store)
unfolding remove_expired
remove_expired-Recorded now key e store h r =
    get-filter (λ (x : Str × ℕ). ltb now x.1) key store.entries r (ground arith)

claim_key-Recorded :
    (store : MemoryReplayStore) (key k : Str) (e x : ℕ)
    → Recorded key e store
    → Recorded key e (claim_key store k x).0
unfolding claim_key
claim_key-Recorded store key k e x r =
    ground (arith, get-put k key x store.entries, str_eq_iff k key, str_eq_iff key k)

module _ (stringify : Str → Str → Str → Str) where
  -- A record stays while it is not expired, whatever is claimed meanwhile.
  use_jti-Recorded :
      (now : ℕ) (claim : JtiReplayClaim) (store : MemoryReplayStore) (key : Str) (e : ℕ)
      → now < e
      → Recorded key e store
      → Recorded key e (use_jti stringify now claim store).0
  unfolding use_jti
  use_jti-Recorded now claim store key e h r = elim (Option-cases (validate_claim claim)) [
    | inl bad ↦ rw (bad, use_jti) r
    | inr (x, good) ↦
        rw (good, use_jti)
          (claim_key-Recorded (remove_expired now store) key (key_of stringify claim) e x
            (remove_expired-Recorded now key e store h r))
  ]

  use_all-Recorded :
      (calls : List (ℕ × JtiReplayClaim)) (store : MemoryReplayStore) (key : Str) (e : ℕ)
      → All (λ (c : ℕ × JtiReplayClaim). c.0 < e) calls
      → Recorded key e store
      → Recorded key e (use_all stringify calls store)
  unfolding use_all
  use_all-Recorded [] store key e h r = r
  use_all-Recorded ((now, claim) ∷ calls) store key e (first, h) r =
      use_all-Recorded calls (use_jti stringify now claim store).0 key e h
        (use_jti-Recorded now claim store key e first r)

  claimed-Recorded :
      (now : ℕ) (claim : JtiReplayClaim) (store : MemoryReplayStore)
      → (use_jti stringify now claim store).1 ≡ claimed
      → (e : ℕ) × (validate_claim claim ≡ some e)
        × Recorded (key_of stringify claim) e (use_jti stringify now claim store).0
  unfolding use_jti claim_key
  claimed-Recorded now claim store h = elim (Option-cases (validate_claim claim)) [
    | inl bad ↦ ground (arith, bad)
    | inr (e, good) ↦
        let pruned = remove_expired now store in
        let key = key_of stringify claim in
        (e, good, ground (arith, good, get-put key key e pruned.entries, str_eq_refl key))
  ]

  Recorded-used :
      (now : ℕ) (claim : JtiReplayClaim) (store : MemoryReplayStore) (e x : ℕ)
      → now < e
      → validate_claim claim ≡ some x
      → Recorded (key_of stringify claim) e store
      → (use_jti stringify now claim store).1 ≡ used
  unfolding use_jti claim_key
  Recorded-used now claim store e x h good r =
      ground (arith, good, remove_expired-Recorded now (key_of stringify claim) e store h r)

  -- A claim that was accepted is not accepted again before it expires: after any calls at times
  -- before its expiration, a valid claim with the same issuer, audience and identifier is
  -- answered as used.
  pub use_jti_once :
      (now now' : ℕ) (claim claim' : JtiReplayClaim) (calls : List (ℕ × JtiReplayClaim))
      (store : MemoryReplayStore) (e x : ℕ)
      → (use_jti stringify now claim store).1 ≡ claimed
      → claim.expires_at ≡ some e
      → All (λ (c : ℕ × JtiReplayClaim). c.0 < e) calls
      → now' < e
      → key_of stringify claim' ≡ key_of stringify claim
      → validate_claim claim' ≡ some x
      → (use_jti stringify now' claim'
          (use_all stringify calls (use_jti stringify now claim store).0)).1
        ≡ used
  use_jti_once now now' claim claim' calls store e x accepted expires times before same valid =
      let (e', good, recorded) = claimed-Recorded now claim store accepted in
      let agree : e' ≡ e = expiration claim good expires in
      let kept =
        use_all-Recorded calls (use_jti stringify now claim store).0 (key_of stringify claim) e
          times (rw agree at recorded) in
      Recorded-used now' claim' (use_all stringify calls (use_jti stringify now claim store).0) e x
        before valid (rw same kept)
    where
      expiration :
          (claim : JtiReplayClaim) {a b : ℕ}
          → validate_claim claim ≡ some a
          → claim.expires_at ≡ some b
          → a ≡ b
      expiration claim h k = unfold validate_claim in ground arith

  -- The store never holds more entries than its bound, whatever is claimed.
  use_jti-bound :
      (now : ℕ) (claim : JtiReplayClaim) (store : MemoryReplayStore)
      → length store.entries ≤ store.max_entries
      → (length (use_jti stringify now claim store).0.entries ≤ store.max_entries)
        × ((use_jti stringify now claim store).0.max_entries ≡ store.max_entries)
  unfolding use_jti claim_key remove_expired
  use_jti-bound now claim store h = elim (Option-cases (validate_claim claim)) [
    | inl bad ↦ rw (bad, use_jti) (h, refl)
    | inr (e, good) ↦
        let p = λ (x : Str × ℕ). ltb now x.1 in
        ground (
          arith,
          good,
          length-filter p store.entries,
          length-put (key_of stringify claim) e (filter p store.entries),
        )
  ]

  -- From a store within its bound, any calls leave it within its bound.
  pub use_all-bound :
      (calls : List (ℕ × JtiReplayClaim)) (store : MemoryReplayStore)
      → length store.entries ≤ store.max_entries
      → length (use_all stringify calls store).entries ≤ store.max_entries
  unfolding use_all
  use_all-bound [] store h = h
  use_all-bound ((now, claim) ∷ calls) store h =
      let (fits, same) = use_jti-bound now claim store h in
      let rest = use_all-bound calls (use_jti stringify now claim store).0 (omega arith) in
      omega arith

  -- A valid new claim that finds the store full of unexpired entries is refused, and nothing but the
  -- expired entries leaves the store.
  pub use_jti_full :
      (now : ℕ) (claim : JtiReplayClaim) (store : MemoryReplayStore) (e : ℕ)
      → validate_claim claim ≡ some e
      → get (key_of stringify claim) (remove_expired now store).entries ≡ none
      → store.max_entries ≤ length (remove_expired now store).entries
      → use_jti stringify now claim store ≡ (remove_expired now store, capacity_error)
  unfolding use_jti claim_key remove_expired
  use_jti_full now claim store e valid new full = rw (valid, use_jti) (ground (arith, new))
