-- ===== src/Replay.antt =====
-- packages/core/src/memory-replay-store.ts: one-time use of JWT identifiers, with the claim of
-- packages/core/src/replay-store.ts. Times are natural numbers of seconds; an expiration that is no
-- finite number is `none`. `stringify` is `JSON.stringify` of the three strings.
pub mod Laws
use oidfed.Common.{
  ℕ, Str, Dict, get, put, has, filter, length, ltb, leb, Bool, true, false, ◌||◌, Option, none,
  some, List, [], ◌∷◌, if◌then◌else◌, ◌==◌,
}

pub record JtiReplayClaim : Type 0 where
  pub issuer : Str
  pub audience : Str
  pub jti : Str
  pub expires_at : Option ℕ

pub record MemoryReplayStore : Type 0 where
  pub entries : Dict ℕ
  pub max_entries : ℕ

-- A call that throws leaves what it did to the store.
pub data Reply : Type 0 where
  claimed used : Reply
  capacity_error type_error : Reply

abbrev pub is_empty : Str → Bool
is_empty [] = true
is_empty (c ∷ s) = false

-- The constructor; `none` is its `RangeError`.
pub create : ℕ → Option MemoryReplayStore
create max = if max == 0 then none else some (record { entries = []; max_entries = max })

unfoldable pub remove_expired : ℕ → MemoryReplayStore → MemoryReplayStore
remove_expired now store = record store {
  entries = filter (λ (e : Str × ℕ). ltb now e.1) store.entries;
}

-- The claim's expiration, if the claim is valid.
unfoldable pub validate_claim : JtiReplayClaim → Option ℕ
validate_claim claim =
    if is_empty claim.issuer || is_empty claim.audience || is_empty claim.jti
    then none
    else claim.expires_at

unfoldable pub claim_key : MemoryReplayStore → Str → ℕ → MemoryReplayStore × Reply
claim_key store key expires_at =
    if has key store.entries
    then (store, used)
    else if leb store.max_entries (length store.entries)
    then (store, capacity_error)
    else (record store { entries = put key expires_at store.entries }, claimed)

module _ (stringify : Str → Str → Str → Str) where
  abbrev pub key_of : JtiReplayClaim → Str
  key_of claim = stringify claim.issuer claim.audience claim.jti

  unfoldable pub use_jti : ℕ → JtiReplayClaim → MemoryReplayStore → MemoryReplayStore × Reply
  use_jti now claim store = elim (validate_claim claim) [
    | none ↦ (store, type_error)
    | some expires_at ↦ claim_key (remove_expired now store) (key_of claim) expires_at
  ]

  -- Calls after one another, each at its time.
  unfoldable pub use_all : List (ℕ × JtiReplayClaim) → MemoryReplayStore → MemoryReplayStore
  use_all [] store = store
  use_all ((now, claim) ∷ calls) store = use_all calls (use_jti now claim store).0
