-- ===== src/Tests/Stores.antt =====
-- The caches, the replay store and the constraints at concrete inputs.
use oidfed.Common.{
  ℕ, ◌≤◌, Str, js, Dict, get, length, ◌≡◌, ◌↔◌, refl, Option, none, some, [], ◌∷◌, arith, ok,
  if◌then◌else◌,
}
use oidfed.Cache.{MemoryCache, get_at, set_at, run}
use oidfed.Cache.Laws.{run-bound}
use oidfed.Replay.{
  JtiReplayClaim, MemoryReplayStore, used, remove_expired, validate_claim, claim_key, use_jti,
  use_all,
}
use oidfed.Replay.Laws.{use_jti_once, use_all-bound}
use oidfed.Constraints.{
  NamingConstraints, TrustChainConstraints, check_constraints, apply_allowed_entity_types,
  allowed_type,
}
use oidfed.Constraints.Types.{apply_allowed_entity_types_lem}
use oidfed.Constraints.Laws.{check_constraints_iff, IsWithin}

abbrev two_entries : MemoryCache ℕ
two_entries = record {
  store =
      (js "a", record { value = 1; expires_at = 10 })
      ∷ (js "b", record { value = 2; expires_at = 20 })
      ∷ [];
  max_entries = 2;
}

run-bound_example :
    length (run (set_at (js "c") 3 5 1 ∷ get_at (js "b") 2 ∷ []) two_entries).store ≤ 2
run-bound_example =
    run-bound (set_at (js "c") 3 5 1 ∷ get_at (js "b") 2 ∷ []) two_entries (omega arith)
      (omega arith)

abbrev first_claim : JtiReplayClaim
first_claim = record { issuer = js "i"; audience = js "a"; jti = js "x"; expires_at = some 10 }

abbrev second_claim : JtiReplayClaim
second_claim = record { issuer = js "i"; audience = js "a"; jti = js "y"; expires_at = some 10 }

abbrev joined : Str → Str → Str → Str
joined issuer audience jti = jti

abbrev empty_store : MemoryReplayStore
empty_store = record { entries = []; max_entries = 2 }

abbrev full_store : MemoryReplayStore
full_store = record { entries = (js "x", 10) ∷ []; max_entries = 1 }

use_jti_once_example :
    (use_jti joined 5 first_claim
      (use_all joined ((3, second_claim) ∷ []) (use_jti joined 1 first_claim empty_store).0)).1
    ≡ used
unfolding use_jti claim_key validate_claim remove_expired get
use_jti_once_example =
    use_jti_once joined 1 5 first_claim first_claim ((3, second_claim) ∷ []) empty_store 10 10 refl
      refl (omega arith, tt) (omega arith) refl refl

use_all-bound_example :
    length (use_all joined ((1, first_claim) ∷ (2, second_claim) ∷ []) full_store).entries ≤ 1
use_all-bound_example =
    use_all-bound joined ((1, first_claim) ∷ (2, second_claim) ∷ []) full_store (omega arith)

abbrev naming : NamingConstraints
naming = record { permitted = some (js ".org" ∷ []); excluded = some (js "bad.org" ∷ []) }

abbrev host_of : Str → Option Str
host_of entity = some entity

abbrev limits : TrustChainConstraints
limits = record { max_path_length = some 1; naming_constraints = some naming }

check_constraints_iff_example :
    (check_constraints host_of limits 2 (js "a.org" ∷ js "b.org" ∷ js "c.com" ∷ []) 3 ≡ ok tt)
    ↔ IsWithin host_of limits 2 (js "a.org" ∷ js "b.org" ∷ js "c.com" ∷ [])
check_constraints_iff_example =
    check_constraints_iff host_of limits 2 (js "a.org" ∷ js "b.org" ∷ js "c.com" ∷ []) 3

abbrev types : Dict ℕ
types = (js "federation_entity", 1) ∷ (js "openid_provider", 2) ∷ []

apply_allowed_entity_types_lem_example :
    get (js "openid_provider") (apply_allowed_entity_types (js "openid_relying_party" ∷ []) types)
    ≡ (if allowed_type (js "openid_relying_party" ∷ []) (js "openid_provider")
        then get (js "openid_provider") types
        else none)
apply_allowed_entity_types_lem_example =
    apply_allowed_entity_types_lem (js "openid_relying_party" ∷ []) types (js "openid_provider")
