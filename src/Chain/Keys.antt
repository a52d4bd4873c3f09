-- ===== src/Chain/Keys.antt =====
-- packages/core/src/jwks/use-requirement.ts and the keys of packages/core/src/jose/keys.ts: which
-- key of a set verifies a token, which keys need a `use`, and which fields of a key are public.
pub mod Laws
pub mod Use
use oidfed.Common.{
  ℕ, String, Str, js, Dict, get, put, any, str_eq, Bool, true, false, not, ◌&&◌, ◌||◌, Option, none,
  some, List, [], ◌∷◌, if◌then◌else◌,
}
use oidfed.Json.{Json, str}
use oidfed.Chain.Values.{Jwk, Reading, strict_equal, truthy, as_array, as_string, is_in}

abbrev pub supported_algorithms : List String
supported_algorithms = "ES256" ∷ "ES384" ∷ "ES512" ∷ "PS256" ∷ "PS384" ∷ "PS512" ∷ "RS256" ∷ []

unfoldable pub is_valid_algorithm : Option Json → Bool
is_valid_algorithm (some (str alg)) = not (str_eq alg (js "none")) && is_in supported_algorithms alg
is_valid_algorithm _ = false

abbrev pub jws_algs : List String
jws_algs =
    "HS256" ∷ "HS384" ∷ "HS512" ∷ "RS256" ∷ "RS384" ∷ "RS512" ∷ "ES256" ∷ "ES384" ∷ "ES512"
    ∷ "ES256K" ∷ "PS256" ∷ "PS384" ∷ "PS512" ∷ "EdDSA" ∷ []

abbrev pub jwe_algs : List String
jwe_algs =
    "RSA1_5" ∷ "RSA-OAEP" ∷ "RSA-OAEP-256" ∷ "A128KW" ∷ "A192KW" ∷ "A256KW" ∷ "dir" ∷ "ECDH-ES"
    ∷ "ECDH-ES+A128KW" ∷ "ECDH-ES+A192KW" ∷ "ECDH-ES+A256KW" ∷ "A128GCMKW" ∷ "A192GCMKW"
    ∷ "A256GCMKW" ∷ "PBES2-HS256+A128KW" ∷ "PBES2-HS384+A192KW" ∷ "PBES2-HS512+A256KW" ∷ []

abbrev pub enc_key_ops : List String
enc_key_ops = "encrypt" ∷ "decrypt" ∷ "wrapKey" ∷ "unwrapKey" ∷ "deriveKey" ∷ "deriveBits" ∷ []

abbrev pub has_use : String → Jwk → Bool
has_use use' jwk = strict_equal (get (js "use") jwk) (some (str (js use')))

-- `jwk.key_ops?.some(op => names.has(op))`
abbrev pub has_op : List String → Jwk → Bool
has_op names jwk = any (λ op. is_in names (as_string (some op))) (as_array (get (js "key_ops") jwk))

abbrev pub has_alg : List String → Jwk → Bool
has_alg names jwk = is_in names (as_string (get (js "alg") jwk))

unfoldable pub is_likely_signing : Jwk → Bool
is_likely_signing jwk =
    if has_use "sig" jwk
    then true
    else if has_use "enc" jwk
    then false
    else has_op ("sign" ∷ "verify" ∷ []) jwk || has_alg jws_algs jwk

unfoldable pub is_likely_encryption : Jwk → Bool
is_likely_encryption jwk =
    if has_use "enc" jwk
    then true
    else if has_use "sig" jwk
    then false
    else has_op enc_key_ops jwk || has_alg jwe_algs jwk

-- The keys that the loop refuses.
abbrev pub lacks_use : Jwk → Bool
lacks_use jwk = not (has_use "sig" jwk) && not (has_use "enc" jwk)

-- Whether the result is ok.
unfoldable pub validate_jwk_set_use_requirement : List Jwk → Bool
validate_jwk_set_use_requirement jwks =
    if any is_likely_signing jwks && any is_likely_encryption jwks
    then not (any lacks_use jwks)
    else true

-- `ALG_TO_KTY`
unfoldable pub alg_to_kty : Str → Option String
alg_to_kty alg =
    if is_in ("ES256" ∷ "ES384" ∷ "ES512" ∷ []) alg
    then some "EC"
    else if is_in ("PS256" ∷ "PS384" ∷ "PS512" ∷ "RS256" ∷ []) alg
    then some "RSA"
    else none

abbrev pub find : (Jwk → Bool) → List Jwk → Option Jwk
find p [] = none
find p (k ∷ ks) = elim (p k) [ true ↦ some k | false ↦ find p ks ]

module _ (reading : ℕ → Reading) where
  -- `!k.use || k.use === "sig"`
  unfoldable pub may_verify : Jwk → Bool
  may_verify k = not (truthy reading (get (js "use") k)) || has_use "sig" k

  abbrev pub matches_kid : Option Json → Jwk → Bool
  matches_kid kid k = strict_equal (get (js "kid") k) kid && may_verify k

  abbrev pub matches_alg : Option Json → String → Jwk → Bool
  matches_alg alg kty k =
      strict_equal (get (js "kty") k) (some (str (js kty)))
      && may_verify k
      && (not (truthy reading (get (js "alg") k)) || strict_equal (get (js "alg") k) alg)

  -- `byKid`, unless it names another algorithm than the header.
  abbrev pub unless_other_alg : Option Json → Option Jwk → Option Jwk
  unless_other_alg alg none = none
  unless_other_alg alg (some k) =
      if truthy reading (get (js "alg") k)
        && truthy reading alg
        && not (strict_equal (get (js "alg") k) alg)
      then none
      else some k

  abbrev pub find_by_alg : Option Json → List Jwk → Option String → Option Jwk
  find_by_alg alg ks none = none
  find_by_alg alg ks (some kty) = find (matches_alg alg kty) ks

  -- The header gives a key id and an algorithm.
  unfoldable pub select_verification_key : Option Json → Option Json → List Jwk → Option Jwk
  select_verification_key kid alg ks =
      if truthy reading kid
      then unless_other_alg alg (find (matches_kid kid) ks)
      else if truthy reading alg
      then find_by_alg alg ks (alg_to_kty (as_string alg))
      else none

abbrev pub jwk_public_fields : List String
jwk_public_fields =
    "kty" ∷ "use" ∷ "key_ops" ∷ "alg" ∷ "kid" ∷ "x5u" ∷ "x5c" ∷ "x5t" ∷ "x5t#S256" ∷ "crv" ∷ "x"
    ∷ "y" ∷ "n" ∷ "e" ∷ []

-- The loop over the entries.
unfoldable pub strip_loop : Jwk → Dict Json → Dict Json
strip_loop [] pub' = pub'
strip_loop ((k, v) ∷ raw) pub' =
    strip_loop raw (if is_in jwk_public_fields k then put k v pub' else pub')

-- `none`: the TypeError for a symmetric key.
unfoldable pub strip_private_fields : Jwk → Option Jwk
strip_private_fields raw =
    if strict_equal (get (js "kty") raw) (some (str (js "oct")))
    then none
    else some (strip_loop raw [])
