-- ===== src/Chain/Keys/Laws.antt =====
-- The selection of a key and the stripping of private fields in Chain/Keys.
use oidfed.Common.{
  ℕ, Str, js, Dict, get, put, get-put, str_eq, str_eq_iff, ◌≡◌, refl, sym, Bool, true, false,
  Option, none, some, List, [], ◌∷◌, In, inl, inr, arith, Bool-cases,
}
use oidfed.Json.{Json}
use oidfed.Chain.Values.{Jwk, Reading, strict_equal, truthy, is_in}
use oidfed.Chain.Keys.{
  find, may_verify, matches_kid, unless_other_alg, select_verification_key, jwk_public_fields,
  strip_loop, strip_private_fields,
}

find-some : (p : Jwk → Bool) (ks : List Jwk) {k : Jwk} → find p ks ≡ some k → In k ks × (p k ≡ true)
find-some p [] h = cc
find-some p (x ∷ ks) {k} h = elim (Bool-cases (p x)) [
  | inl e ↦ let same : x ≡ k = cc (rw (e, find) at h) in (inl (sym same), rw (← same) e)
  | inr e ↦ let (m, holds) = find-some p ks (rw (e, find) at h) in (inr m, holds)
]

module _ (reading : ℕ → Reading) where
  -- The keys that may verify a token with a key id and an algorithm.
  pub record IsSelected (kid alg : Option Json) (ks : List Jwk) (k : Jwk) : Type 0 where
    pub member : In k ks
    pub same_kid : strict_equal (get (js "kid") k) kid ≡ true
    pub for_signatures : may_verify reading k ≡ true
    pub same_alg :
        truthy reading (get (js "alg") k) ≡ true
        → truthy reading alg ≡ true
        → strict_equal (get (js "alg") k) alg ≡ true

  unless-IsSelected :
      (kid alg : Option Json) (ks : List Jwk) (found : Option Jwk) (k : Jwk)
      → find (matches_kid reading kid) ks ≡ found
      → unless_other_alg reading alg found ≡ some k
      → IsSelected kid alg ks k
  unless-IsSelected kid alg ks none k e h = absurd (cc h)
  unless-IsSelected kid alg ks (some x) k e h =
      let same : x ≡ k = ground (arith, h) in
      let (m, holds) = find-some (matches_kid reading kid) ks e in
      rw (← same) (record {
        member = m;
        same_kid = ground (arith, holds);
        for_signatures = ground (arith, holds);
        same_alg = λ a b. ground (arith, h, a, b);
      })

  -- The key that is selected for a header with a key id is one of the set; it has this id, its use
  -- is open or signing, and where both name an algorithm, it is the same.
  pub select_verification_key-IsSelected :
      (kid alg : Option Json) (ks : List Jwk) (k : Jwk)
      → truthy reading kid ≡ true
      → select_verification_key reading kid alg ks ≡ some k
      → IsSelected kid alg ks k
  unfolding select_verification_key
  select_verification_key-IsSelected kid alg ks k named h =
      unless-IsSelected kid alg ks (find (matches_kid reading kid) ks) k refl (rw named at h)

strip_loop_lem :
    (raw : Jwk) (known : Dict Json) (field : Str)
    → is_in jwk_public_fields field ≡ false
    → get field known ≡ none
    → get field (strip_loop raw known) ≡ none
unfolding strip_loop
strip_loop_lem [] known field private absent = absent
strip_loop_lem ((k, v) ∷ raw) known field private absent =
    elim (Bool-cases (is_in jwk_public_fields k)) [
      | inr e ↦ rw (e, strip_loop) (strip_loop_lem raw known field private absent)
      | inl e ↦ rw (e, strip_loop) (strip_loop_lem raw (put k v known) field private (kept e))
    ]
  where
    kept : is_in jwk_public_fields k ≡ true → get field (put k v known) ≡ none
    kept e = elim (Bool-cases (str_eq k field)) [
      | inl same ↦
          let e' : is_in jwk_public_fields field ≡ true = rw ((str_eq_iff k field).0 same) at e in
          absurd (cc (e', private))
      | inr other ↦ rw (get-put k field v known, other) absent
    ]

-- A key that is stripped has no field but the public ones.
pub strip_private_fields_lem :
    (raw key : Jwk) (field : Str)
    → strip_private_fields raw ≡ some key
    → is_in jwk_public_fields field ≡ false
    → get field key ≡ none
unfolding strip_private_fields get
strip_private_fields_lem raw key field h private =
    let same : strip_loop raw [] ≡ key = ground (arith, h) in
    rw (← same) (strip_loop_lem raw [] field private refl)
