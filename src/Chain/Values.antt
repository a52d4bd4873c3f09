-- ===== src/Chain/Values.antt =====
-- What the validation of chains reads of a payload: the comparisons and the tests of JavaScript on
-- claims, and the functions of the libraries and of the platform that it calls.
use oidfed.Common.{
  ℕ, Str, js, Dict, get, str_eq, String, ◌==◌, ltb, ◌+◌, Bool, true, false, not, Option, none, some,
  List, [], ◌∷◌, map,
}
use oidfed.Json.{Json, null, bool, num, str, arr, obj, elems, entries, bool_eq}

-- What the number of a code is: `n`, `-n`, or no safe integer.
pub data Reading : Type 0 where
  natural negative : ℕ → Reading
  no_safe_integer : Reading

-- The zod schemas of packages/core/src/schemas that payloads are parsed with.
pub data Schema : Type 0 where
  entity_configuration subordinate_statement trust_mark trust_mark_delegation : Schema

abbrev pub Jwk : Type 0
Jwk = Dict Json

-- The functions that the code calls and that stand in no file of it.
pub record Platform : Type 0 where
  -- `jose.decodeProtectedHeader` and `jose.decodeJwt`: `none` where they throw.
  pub decode_protected_header : Str → Option (Dict Json)
  pub decode_jwt : Str → Option (Dict Json)
  -- `jose.importJWK` of a key for an algorithm, then `jose.jwtVerify` of a token with a tolerance at
  -- a time: `none` where one of them throws.
  pub jwt_verify : Jwk → Str → ℕ → ℕ → Str → Option (Dict Json)
  -- `safeParse`: for each issue the first component of its path; no issue is success.
  pub schema_issues : Schema → Dict Json → List (Option Str)
  -- `atob` and `TextDecoder.decode`, and `JSON.parse` of a string literal: `none` where they throw.
  pub decode_base64 : Str → Option Str
  pub parse_literal : Str → Option Str
  pub reading : ℕ → Reading
  pub is_integer : ℕ → Bool
  -- `String(v)` of what is no string, and the host name of a URL.
  pub to_string : Json → Str
  pub hostname : Str → Option Str

-- `a === b`: two objects that were parsed are never one.
unfoldable pub strict_equal : Option Json → Option Json → Bool
unfolding bool_eq
strict_equal none none = true
strict_equal (some null) (some null) = true
strict_equal (some (bool a)) (some (bool b)) = bool_eq a b
strict_equal (some (num a)) (some (num b)) = a == b
strict_equal (some (str a)) (some (str b)) = str_eq a b
strict_equal _ _ = false

-- `typeof v === "string"`
abbrev pub is_string : Option Json → Bool
is_string (some (str s)) = true
is_string _ = false

-- `isJsonObject`
abbrev pub is_json_object : Json → Bool
is_json_object (obj fs) = true
is_json_object _ = false

abbrev pub is_zero : Reading → Bool
is_zero (natural n) = n == 0
is_zero (negative n) = n == 0
is_zero no_safe_integer = false

-- `!!v`
unfoldable pub truthy : (ℕ → Reading) → Option Json → Bool
truthy reading none = false
truthy reading (some null) = false
truthy reading (some (bool b)) = b
truthy reading (some (num n)) = not (is_zero (reading n))
truthy reading (some (str s)) = not (str_eq s [])
truthy reading (some (arr vs)) = true
truthy reading (some (obj fs)) = true

-- `now + skew < v` and `v < now - skew` on safe integers.
abbrev pub is_after : Reading → ℕ → ℕ → Bool
is_after (natural n) now skew = ltb (now + skew) n
is_after _ now skew = false

abbrev pub is_before : Reading → ℕ → ℕ → Bool
is_before (natural n) now skew = ltb (n + skew) now
is_before (negative n) now skew = ltb skew (now + n)
is_before no_safe_integer now skew = false

-- Casts of claims whose type a schema has checked; any other value reads as empty.
abbrev pub as_string : Option Json → Str
as_string (some (str s)) = s
as_string _ = []

abbrev pub as_object : Option Json → Dict Json
as_object (some (obj fs)) = entries fs
as_object _ = []

abbrev pub as_array : Option Json → List Json
as_array (some (arr vs)) = elems vs
as_array _ = []

abbrev pub as_strings : Option Json → List Str
as_strings v = map (λ s. as_string (some s)) (as_array v)

-- `jwks.keys`
abbrev pub keys_of : Option Json → List Jwk
keys_of jwks = map (λ k. as_object (some k)) (as_array (get (js "keys") (as_object jwks)))

-- `v && typeof v === "object"`
abbrev pub is_object : Option Json → Bool
is_object (some (obj fs)) = true
is_object (some (arr vs)) = true
is_object _ = false

-- `Object.values(v)`
abbrev pub values_of : Option Json → List Json
values_of (some (obj fs)) = map (λ (e : Str × Json). e.1) (entries fs)
values_of (some (arr vs)) = elems vs
values_of _ = []

abbrev pub is_in : List String → Str → Bool
is_in [] s = false
is_in (t ∷ ts) s = elim (str_eq (js t) s) [ true ↦ true | false ↦ is_in ts s ]
