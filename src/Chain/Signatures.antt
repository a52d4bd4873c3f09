-- ===== src/Chain/Signatures.antt =====
-- packages/core/src/jose/verify.ts: decoding, and the verification of a signed statement against a
-- set of keys.
use oidfed.Common.{
  ℕ, Str, js, Dict, get, String, Bool, not, ◌||◌, Option, none, some, List, if◌then◌else◌, Result,
  ok, err,
}
use oidfed.Json.{Json, str}
use oidfed.Chain.Values.{Jwk, Platform, strict_equal, truthy, is_string, as_string}
use oidfed.Chain.Keys.{is_valid_algorithm, select_verification_key}

pub record ParsedEntityStatement : Type 0 where
  pub header : Dict Json
  pub payload : Dict Json

pub data VerifyError : Type 0 where
  undecodable invalid_typ unsupported_alg missing_kid no_matching_key not_verified : VerifyError

-- `JwtTyp`
abbrev pub entity_statement_typ : String
entity_statement_typ = "entity-statement+jwt"

abbrev pub trust_mark_typ : String
trust_mark_typ = "trust-mark+jwt"

abbrev pub trust_mark_delegation_typ : String
trust_mark_delegation_typ = "trust-mark-delegation+jwt"

abbrev pub is_typ : String → Dict Json → Bool
is_typ typ header = strict_equal (get (js "typ") header) (some (str (js typ)))

module _ (platform : Platform) where
  unfoldable pub decode_entity_statement : Str → Option ParsedEntityStatement
  decode_entity_statement jwt = elim (platform.decode_protected_header jwt) [
    | none ↦ none
    | some h ↦ elim (platform.decode_jwt jwt) [
      | none ↦ none
      | some p ↦ some (record { header = h; payload = p })
    ]
  ]

  -- `!h.kid || typeof h.kid !== "string"`
  abbrev pub lacks_kid : Dict Json → Bool
  lacks_kid header =
      not (truthy platform.reading (get (js "kid") header))
      || not (is_string (get (js "kid") header))

  -- The `try` block: `importJWK` and `jwtVerify`.
  abbrev pub check_signature :
      Str → Dict Json → Option Jwk → ℕ → ℕ → Result VerifyError ParsedEntityStatement
  check_signature jwt header none skew now = err no_matching_key
  check_signature jwt header (some key) skew now =
      elim (platform.jwt_verify key (as_string (get (js "alg") header)) skew now jwt) [
        | none ↦ err not_verified
        | some payload ↦ ok (record { header = header; payload = payload })
      ]

  -- With the type that is expected, the tolerance and the time.
  unfoldable pub verify_entity_statement :
      Str → List Jwk → String → ℕ → ℕ → Result VerifyError ParsedEntityStatement
  verify_entity_statement jwt jwks expected_typ skew now =
      elim (platform.decode_protected_header jwt) [
        | none ↦ err undecodable
        | some header ↦
            if not (is_typ expected_typ header)
            then err invalid_typ
            else if not (is_valid_algorithm (get (js "alg") header))
            then err unsupported_alg
            else if lacks_kid header
            then err missing_kid
            else check_signature jwt header
                (select_verification_key platform.reading (get (js "kid") header)
                  (get (js "alg") header) jwks)
                skew now
      ]
