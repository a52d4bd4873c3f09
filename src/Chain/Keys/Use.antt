-- ===== src/Chain/Keys/Use.antt =====
-- When packages/core/src/jwks/use-requirement.ts refuses a set of keys.
use oidfed.Common.{
  String, Str, js, get, any_intro, any-witness, str_eq, str_eq_iff, str_eq_refl, ◌≡◌, ◌≢◌, ◌↔◌, ◌⊎◌,
  refl, sym, ap, Bool, true, false, ◌||◌, Option, none, some, List, [], ◌∷◌, map, In, inl, inr,
  arith, Bool-cases, if◌then◌else◌,
}
use oidfed.Json.{Json, null, bool, num, str, arr, obj}
use oidfed.Chain.Values.{Jwk, strict_equal, is_in, as_string, as_array}
use oidfed.Chain.Keys.{
  has_use, has_op, has_alg, jws_algs, jwe_algs, enc_key_ops, is_likely_signing,
  is_likely_encryption, lacks_use, validate_jwk_set_use_requirement,
}

strict_equal_text :
    (v : Option Json) (s : Str) → (strict_equal v (some (str s)) ≡ true) ↔ (v ≡ some (str s))
unfolding strict_equal
strict_equal_text v s = (to v, λ e. rw e (str_eq_refl s))
  where
    to : (v : Option Json) → strict_equal v (some (str s)) ≡ true → v ≡ some (str s)
    to (some (str t)) h = ap (λ u. some (str u)) ((str_eq_iff t s).0 h)
    to none h = absurd (cc h)
    to (some null) h = absurd (cc h)
    to (some (bool b)) h = absurd (cc h)
    to (some (num n)) h = absurd (cc h)
    to (some (arr vs)) h = absurd (cc h)
    to (some (obj fs)) h = absurd (cc h)

is_in_iff : (names : List String) (s : Str) → (is_in names s ≡ true) ↔ In s (map js names)
is_in_iff names s = (to names, from names)
  where
    to : (names : List String) → is_in names s ≡ true → In s (map js names)
    to [] h = absurd (cc h)
    to (n ∷ names) h = elim (Bool-cases (str_eq (js n) s)) [
      | inl e ↦ inl (sym ((str_eq_iff (js n) s).0 e))
      | inr e ↦ inr (to names (rw (e, is_in) at h))
    ]

    from : (names : List String) → In s (map js names) → is_in names s ≡ true
    from [] m = absurd m
    from (n ∷ names) m = elim (Bool-cases (str_eq (js n) s)) [
      | inl e ↦ rw (e, is_in) refl
      | inr e ↦
          rw (e, is_in)
            (elim m [
              | inl same ↦ cc (e, (str_eq_iff (js n) s).1 (sym same))
              | inr k ↦ from names k
            ])
    ]

-- A claim whose text is among names is a text, where no name is empty.
text_among :
    (names : List String) (v : Option Json)
    → is_in names [] ≡ false
    → is_in names (as_string v) ≡ true
    → (s : Str) × (v ≡ some (str s)) × In s (map js names)
text_among names (some (str s)) proper h = (s, refl, (is_in_iff names s).0 h)
text_among names none proper h = cc (h, proper)
text_among names (some null) proper h = cc (h, proper)
text_among names (some (bool b)) proper h = cc (h, proper)
text_among names (some (num n)) proper h = cc (h, proper)
text_among names (some (arr vs)) proper h = cc (h, proper)
text_among names (some (obj fs)) proper h = cc (h, proper)

-- A key for a use: it says so; or it does not say the other use, and lists an operation or names an
-- algorithm of this use.
abbrev pub IsFor : String → String → List String → List String → Jwk → Type 0
IsFor use' other ops algs jwk =
    (get (js "use") jwk ≡ some (str (js use')))
    ⊎ ((get (js "use") jwk ≢ some (str (js other)))
        × (((op : Str) × In (str op) (as_array (get (js "key_ops") jwk)) × In op (map js ops))
            ⊎ ((alg : Str) × (get (js "alg") jwk ≡ some (str alg)) × In alg (map js algs))))

module _ (use' other : String) (ops algs : List String) (jwk : Jwk)
    (proper_ops : is_in ops [] ≡ false) (proper_algs : is_in algs [] ≡ false) where
  has_op-some :
      has_op ops jwk ≡ true
      → (op : Str) × In (str op) (as_array (get (js "key_ops") jwk)) × In op (map js ops)
  has_op-some h =
      let (v, m, e) = any-witness (λ op. is_in ops (as_string (some op))) _ h in
      let (s, same, k) = text_among ops (some v) proper_ops e in
      let text : v ≡ str s = cc same in (s, rw text at m, k)

  some-has_op :
      (op : Str)
      → In (str op) (as_array (get (js "key_ops") jwk))
      → In op (map js ops)
      → has_op ops jwk ≡ true
  some-has_op op m k =
      any_intro (λ o. is_in ops (as_string (some o))) (str op) _ m ((is_in_iff ops op).1 k)

  some-has_alg :
      (alg : Str)
      → get (js "alg") jwk ≡ some (str alg)
      → In alg (map js algs)
      → has_alg algs jwk ≡ true
  some-has_alg alg e k = rw e ((is_in_iff algs alg).1 k)

  -- The test of a key for a use, of the code.
  abbrev likely : Bool
  likely =
      if has_use use' jwk
      then true
      else if has_use other jwk
      then false
      else has_op ops jwk || has_alg algs jwk

  likely-IsFor : likely ≡ true → IsFor use' other ops algs jwk
  likely-IsFor h = elim (Bool-cases (has_use use' jwk)) [
    | inl says ↦ inl ((strict_equal_text _ (js use')).0 says)
    | inr quiet ↦ inr (elim (Bool-cases (has_use other jwk)) [
      | inl says ↦ absurd (ground (arith, h, quiet, says))
      | inr not_other ↦ (
        λ e. cc (not_other, (strict_equal_text _ (js other)).1 e),
        elim (Bool-cases (has_op ops jwk)) [
          | inl o ↦ inl (has_op-some o)
          | inr no_op ↦ inr (
              text_among algs (get (js "alg") jwk) proper_algs
                (ground (arith, h, quiet, not_other, no_op)))
        ],
      )
    ])
  ]

  IsFor-likely : IsFor use' other ops algs jwk → likely ≡ true
  IsFor-likely (inl says) = rw ((strict_equal_text _ (js use')).1 says) refl
  IsFor-likely (inr (not_other, why)) = elim (Bool-cases (has_use other jwk)) [
    | inl says ↦ absurd (not_other ((strict_equal_text _ (js other)).0 says))
    | inr quiet ↦ elim why [
      | inl (op, m, k) ↦ ground (arith, quiet, some-has_op op m k)
      | inr (alg, e, k) ↦ ground (arith, quiet, some-has_alg alg e k)
    ]
  ]

-- A key for signatures, and one for encryption.
abbrev pub IsForSignatures : Jwk → Type 0
IsForSignatures = IsFor "sig" "enc" ("sign" ∷ "verify" ∷ []) jws_algs

abbrev pub IsForEncryption : Jwk → Type 0
IsForEncryption = IsFor "enc" "sig" enc_key_ops jwe_algs

-- A key whose `use` is neither.
abbrev pub LacksUse : Jwk → Type 0
LacksUse jwk =
    (get (js "use") jwk ≢ some (str (js "sig"))) × (get (js "use") jwk ≢ some (str (js "enc")))

is_likely_signing_iff : (jwk : Jwk) → (is_likely_signing jwk ≡ true) ↔ IsForSignatures jwk
unfolding is_likely_signing str_eq
is_likely_signing_iff jwk = (
  likely-IsFor "sig" "enc" ("sign" ∷ "verify" ∷ []) jws_algs jwk refl refl,
  IsFor-likely "sig" "enc" ("sign" ∷ "verify" ∷ []) jws_algs jwk refl refl,
)

is_likely_encryption_iff : (jwk : Jwk) → (is_likely_encryption jwk ≡ true) ↔ IsForEncryption jwk
unfolding is_likely_encryption str_eq
is_likely_encryption_iff jwk = (
  likely-IsFor "enc" "sig" enc_key_ops jwe_algs jwk refl refl,
  IsFor-likely "enc" "sig" enc_key_ops jwe_algs jwk refl refl,
)

lacks_use_iff : (jwk : Jwk) → (lacks_use jwk ≡ true) ↔ LacksUse jwk
lacks_use_iff jwk = (
  λ h. (
    λ e. ground (arith, h, (strict_equal_text _ (js "sig")).1 e),
    λ e. ground (arith, h, (strict_equal_text _ (js "enc")).1 e),
  ),
  λ (s, e). elim (Bool-cases (has_use "sig" jwk)) [
    | inl says ↦ absurd (s ((strict_equal_text _ (js "sig")).0 says))
    | inr no_sig ↦ elim (Bool-cases (has_use "enc" jwk)) [
      | inl says ↦ absurd (e ((strict_equal_text _ (js "enc")).0 says))
      | inr no_enc ↦ ground (arith, no_sig, no_enc)
    ]
  ],
)

-- A set of keys is refused exactly if it has a key for signatures, a key for encryption, and a key
-- whose `use` is neither "sig" nor "enc". A key is for one of these if its `use` says so, or if its
-- `use` does not say the other and it lists an operation or names an algorithm of this one.
pub validate_jwk_set_use_requirement_iff :
    (jwks : List Jwk)
    → (validate_jwk_set_use_requirement jwks ≡ false) ↔ (
        ((k : Jwk) × In k jwks × IsForSignatures k)
        × ((k : Jwk) × In k jwks × IsForEncryption k)
        × ((k : Jwk) × In k jwks × LacksUse k))
unfolding validate_jwk_set_use_requirement
validate_jwk_set_use_requirement_iff jwks = (
  λ h.
      let (a, m, s) = any-witness is_likely_signing jwks (ground (arith, h)) in
      let (b, n, e) = any-witness is_likely_encryption jwks (ground (arith, h)) in
      let (c, o, l) = any-witness lacks_use jwks (ground (arith, h)) in
      (
        (a, m, (is_likely_signing_iff a).0 s),
        (b, n, (is_likely_encryption_iff b).0 e),
        (c, o, (lacks_use_iff c).0 l),
      ),
  λ ((a, m, s), (b, n, e), (c, o, l)).
      let s' = any_intro is_likely_signing a jwks m ((is_likely_signing_iff a).1 s) in
      let e' = any_intro is_likely_encryption b jwks n ((is_likely_encryption_iff b).1 e) in
      let l' = any_intro lacks_use c jwks o ((lacks_use_iff c).1 l) in rw (s', e', l') refl,
)
