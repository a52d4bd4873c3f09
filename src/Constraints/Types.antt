-- ===== src/Constraints/Types.antt =====
-- Which types of metadata the allowed entity types keep.
use oidfed.Common.{
  Str, Dict, get, put, get-put, str_eq, str_eq_iff, ◌≡◌, refl, sym, ◌∙◌, inl, inr, true, false,
  none, some, List, [], ◌∷◌, Bool-cases, Option-cases, if◌then◌else◌,
}
use oidfed.Constraints.{allowed_type, keep_allowed, apply_allowed_entity_types}

-- One round of the loop.
kept : {V : Type 0} → List Str → Dict V → Dict V → Str → Dict V
kept allowed metadata result key =
    if allowed_type allowed key
    then (elim (get key metadata) [ none ↦ result | some value ↦ put key value result ])
    else result

module _ {V : Type 0} (allowed : List Str) (metadata : Dict V) where
  kept_refused :
      (result : Dict V) (key j : Str)
      → allowed_type allowed j ≡ false
      → get j (kept allowed metadata result key) ≡ get j result
  unfolding kept
  kept_refused result key j bad = elim (Bool-cases (allowed_type allowed key)) [
    | inr miss ↦ rw miss refl
    | inl hit ↦ elim (Option-cases (get key metadata)) [
      | inl absent ↦ rw (hit, absent) refl
      | inr (v, found) ↦ elim (Bool-cases (str_eq key j)) [
        | inl same ↦
            let e : key ≡ j = (str_eq_iff key j).0 same in
            let hit' : allowed_type allowed j ≡ true = rw e at hit in absurd (cc (hit', bad))
        | inr other ↦ rw (hit, found) (rw (get-put key j v result) (rw other refl))
      ]
    ]
  ]

  kept_agrees :
      (result : Dict V) (key j : Str)
      → get j result ≡ get j metadata
      → get j (kept allowed metadata result key) ≡ get j metadata
  unfolding kept
  kept_agrees result key j agree = elim (Bool-cases (allowed_type allowed key)) [
    | inr miss ↦ rw miss agree
    | inl hit ↦ elim (Option-cases (get key metadata)) [
      | inl absent ↦ rw (hit, absent) agree
      | inr (v, found) ↦ elim (Bool-cases (str_eq key j)) [
        | inl same ↦
            let e : key ≡ j = (str_eq_iff key j).0 same in
            let found' : get j metadata ≡ some v = rw e at found in
            rw (hit, found) (rw (get-put key j v result) (rw same (sym found')))
        | inr other ↦ rw (hit, found) (rw (get-put key j v result) (rw other agree))
      ]
    ]
  ]

  kept_self :
      (result : Dict V) (key j : Str) (v : V)
      → str_eq key j ≡ true
      → allowed_type allowed key ≡ true
      → get key metadata ≡ some v
      → get j metadata ≡ some v
      → get j (kept allowed metadata result key) ≡ get j metadata
  unfolding kept
  kept_self result key j v same hit found found' =
      rw (hit, found) (rw (get-put key j v result) (rw same (sym found')))

  keep_allowed_refused :
      (result rest : Dict V) (j : Str)
      → allowed_type allowed j ≡ false
      → get j (keep_allowed allowed metadata result rest) ≡ get j result
  unfolding keep_allowed kept
  keep_allowed_refused result [] j bad = refl
  keep_allowed_refused result ((key, _) ∷ rest) j bad =
      keep_allowed_refused (kept allowed metadata result key) rest j bad
      ∙ kept_refused result key j bad

  keep_allowed_agrees :
      (result rest : Dict V) (j : Str)
      → get j result ≡ get j metadata
      → get j (keep_allowed allowed metadata result rest) ≡ get j metadata
  unfolding keep_allowed kept
  keep_allowed_agrees result [] j agree = agree
  keep_allowed_agrees result ((key, _) ∷ rest) j agree =
      keep_allowed_agrees (kept allowed metadata result key) rest j (kept_agrees result key j agree)

  keep_allowed_found :
      (result rest : Dict V) (j : Str) (v w : V)
      → allowed_type allowed j ≡ true
      → get j metadata ≡ some v
      → get j rest ≡ some w
      → get j (keep_allowed allowed metadata result rest) ≡ get j metadata
  unfolding keep_allowed kept get
  keep_allowed_found result [] j v w hit found seen = absurd (cc seen)
  keep_allowed_found result ((key, x) ∷ rest) j v w hit found seen =
      elim (Bool-cases (str_eq key j)) [
        | inl same ↦
            let e : key ≡ j = (str_eq_iff key j).0 same in
            keep_allowed_agrees (kept allowed metadata result key) rest j
              (kept_self result key j v same (rw e hit) (rw e found) found)
        | inr other ↦
            keep_allowed_found (kept allowed metadata result key) rest j v w hit found
              (rw other at seen)
      ]

  -- The metadata that is left has, with its value, exactly each type that is allowed or is
  -- federation_entity.
  pub apply_allowed_entity_types_lem :
      (key : Str)
      → get key (apply_allowed_entity_types allowed metadata)
        ≡ (if allowed_type allowed key then get key metadata else none)
  unfolding apply_allowed_entity_types get
  apply_allowed_entity_types_lem key = elim (Bool-cases (allowed_type allowed key)) [
    | inr bad ↦ rw bad (keep_allowed_refused [] metadata key bad)
    | inl hit ↦ elim (Option-cases (get key metadata)) [
      | inl absent ↦ rw hit (keep_allowed_agrees [] metadata key (sym absent))
      | inr (v, found) ↦ rw hit (keep_allowed_found [] metadata key v v hit found found)
    ]
  ]
