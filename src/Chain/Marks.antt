-- ===== src/Chain/Marks.antt =====
-- packages/core/src/trust-marks/index.ts: the validation of a trust mark and of its delegation.
pub mod Laws
use oidfed.Common.{
  is_inherited, is_some, ℕ, String, Str, js, Dict, get, str_eq, any, Bool, true, false, not, ◌&&◌,
  ◌||◌, Option, none, some, List, [], ◌∷◌, map, if◌then◌else◌, Result, ok, err, ◌>>=◌,
}
use oidfed.Json.{Json, num, str}
use oidfed.Chain.Values.{
  Jwk, Platform, Schema, trust_mark, trust_mark_delegation, Reading, natural, negative,
  no_safe_integer, strict_equal, truthy, is_after, is_before, as_object, as_string, keys_of,
}
use oidfed.Chain.Keys.{is_valid_algorithm}
use oidfed.Chain.Signatures.{
  ParsedEntityStatement, VerifyError, decode_entity_statement, verify_entity_statement, is_typ,
  trust_mark_typ, trust_mark_delegation_typ,
}

-- One constructor for each error text.
pub data MarkError : Type 0 where
  undecodable invalid_typ unsupported_algorithm missing_kid invalid_payload : MarkError
  wrong_subject unknown_type no_list unauthorized_issuer in_the_future has_expired : MarkError
  signature_failed : VerifyError → MarkError
  delegation_required wrong_delegation_type no_owner wrong_owner : MarkError

pub record ValidatedTrustMarkDelegation : Type 0 where
  pub issuer : Str
  pub subject : Str
  pub trust_mark_type : Str
  pub issued_at : Reading
  pub expires_at : Option Reading

pub record ValidatedTrustMark : Type 0 where
  pub trust_mark_type : Str
  pub issuer : Str
  pub subject : Str
  pub issued_at : Reading
  pub expires_at : Option Reading
  pub delegation : Option ValidatedTrustMarkDelegation

pub record TrustMarkOwner : Type 0 where
  pub sub : Str
  pub jwks : List Jwk

-- The options, with the defaults filled in.
pub record TrustMarkValidationOptions : Type 0 where
  pub clock_skew_seconds : ℕ
  pub now : ℕ
  pub trust_mark_owners : Option (Dict TrustMarkOwner)
  pub expected_subject : Option Str

-- `if (test) return err(...)`
unfoldable pub refuse_if : Bool → MarkError → Result MarkError (Unit {0})
refuse_if true e = err e
refuse_if false e = ok tt

abbrev pub expiry_passed : Option Reading → ℕ → ℕ → Bool
expiry_passed none now skew = false
expiry_passed (some exp) now skew = is_before exp now skew

unfoldable pub check_verified :
    Result VerifyError ParsedEntityStatement → Result MarkError (Unit {0})
check_verified (ok statement) = ok tt
check_verified (err e) = err (signature_failed e)

unfoldable pub found : {V : Type 0} → MarkError → Option V → Result MarkError V
found e none = err e
found e (some v) = ok v

-- `options?.expectedSubject && sub !== options.expectedSubject`
abbrev pub is_unexpected : Option Str → Str → Bool
is_unexpected none sub = false
is_unexpected (some []) sub = false
is_unexpected (some (c ∷ s)) sub = not (str_eq sub (c ∷ s))

-- Anyone may issue where the list is empty.
unfoldable pub may_issue : List Str → Str → Bool
may_issue [] iss = true
may_issue (i ∷ issuers) iss = any (str_eq iss) (i ∷ issuers)

-- The functions of `Object.prototype` that take no argument, and it itself: as `trustMarkIssuers[type]`
-- their `length` is not above 0, as that of an empty list.
unfoldable pub is_open_name : Str → Bool
is_open_name k =
    any (str_eq k) (map js ("toString" ∷ "valueOf" ∷ "toLocaleString" ∷ "__proto__" ∷ []))

-- `trustMarkIssuers[trustMarkType]` and its tests. Where the object has no such entry, what it
-- inherits is found: the other functions have a `length` and no `includes`, which throws.
unfoldable pub check_allowed : Dict (List Str) → Str → Str → Result MarkError (Unit {0})
check_allowed issuers mark_type iss = elim (get mark_type issuers) [
  | some allowed ↦ refuse_if (not (may_issue allowed iss)) unauthorized_issuer
  | none ↦
      if is_open_name mark_type
      then ok tt
      else if is_inherited mark_type
      then err no_list
      else err unknown_type
]

-- `trustMarkOwners?.[trustMarkType]`, which may be a value that is inherited and has no `sub`.
unfoldable pub owner_for : Option (Dict TrustMarkOwner) → Str → Option (Option TrustMarkOwner)
owner_for none mark_type = none
owner_for (some owners) mark_type = elim (get mark_type owners) [
  | some owner ↦ some (some owner)
  | none ↦ if is_inherited mark_type then some none else none
]

module _ (platform : Platform) where
  abbrev pub time_of : Option Json → Reading
  time_of (some (num n)) = platform.reading n
  time_of _ = no_safe_integer

  abbrev pub optional_time : Option Json → Option Reading
  optional_time none = none
  optional_time (some v) = some (time_of (some v))

  abbrev pub is_parsed : Schema → Dict Json → Bool
  is_parsed schema payload = elim (platform.schema_issues schema payload) [
    | [] ↦ true
    | issue ∷ issues ↦ false
  ]

  abbrev pub has_kid : Dict Json → Bool
  has_kid header = truthy platform.reading (get (js "kid") header)

  abbrev pub read_delegation : Dict Json → ValidatedTrustMarkDelegation
  read_delegation dp = record {
    issuer = as_string (get (js "iss") dp);
    subject = as_string (get (js "sub") dp);
    trust_mark_type = as_string (get (js "trust_mark_type") dp);
    issued_at = time_of (get (js "iat") dp);
    expires_at = optional_time (get (js "exp") dp);
  }

  unfoldable pub validate_delegation :
      Str → Str → Str → TrustMarkValidationOptions → Result MarkError ValidatedTrustMarkDelegation
  validate_delegation delegation_jwt trust_mark_issuer mark_type options = do
    decoded ← found undecodable (decode_entity_statement platform delegation_jwt)
    _ ← refuse_if (not (is_typ trust_mark_delegation_typ decoded.header)) invalid_typ
    _ ← refuse_if (not (has_kid decoded.header)) missing_kid
    _ ← refuse_if (not (is_valid_algorithm (get (js "alg") decoded.header))) unsupported_algorithm
    _ ← refuse_if (not (is_parsed trust_mark_delegation decoded.payload)) invalid_payload
    let d = read_delegation decoded.payload
    _ ← refuse_if (not (str_eq d.subject trust_mark_issuer)) wrong_subject
    _ ← refuse_if (not (str_eq d.trust_mark_type mark_type)) wrong_delegation_type
    value ← found no_owner (owner_for options.trust_mark_owners mark_type)
    owner ← found wrong_owner value
    _ ← refuse_if (not (str_eq d.issuer owner.sub)) wrong_owner
    _ ← refuse_if (is_after d.issued_at options.now options.clock_skew_seconds) in_the_future
    _ ← check_verified (
        verify_entity_statement platform delegation_jwt owner.jwks trust_mark_delegation_typ
          options.clock_skew_seconds options.now)
    _ ← refuse_if (expiry_passed d.expires_at options.now options.clock_skew_seconds) has_expired
    ok d

  abbrev pub is_nonempty_text : Str → Bool
  is_nonempty_text s = not (str_eq s [])

  -- The delegation that the mark names, if it names one.
  abbrev pub check_delegation :
      Str
      → Str
      → Str
      → TrustMarkValidationOptions
      → Result MarkError (Option ValidatedTrustMarkDelegation)
  check_delegation jwt iss mark_type options =
      if is_nonempty_text jwt
      then (do d ← validate_delegation jwt iss mark_type options; ok (some d))
      else ok none

  abbrev pub is_owned : TrustMarkValidationOptions → Str → Bool
  is_owned options mark_type = is_some (owner_for options.trust_mark_owners mark_type)

  abbrev pub read_mark : Dict Json → Option ValidatedTrustMarkDelegation → ValidatedTrustMark
  read_mark p delegation = record {
    trust_mark_type = as_string (get (js "trust_mark_type") p);
    issuer = as_string (get (js "iss") p);
    subject = as_string (get (js "sub") p);
    issued_at = time_of (get (js "iat") p);
    expires_at = optional_time (get (js "exp") p);
    delegation = delegation;
  }

  -- The issuers that are allowed for each type, and the keys of this mark's issuer.
  unfoldable pub validate_trust_mark :
      Str
      → Dict (List Str)
      → List Jwk
      → TrustMarkValidationOptions
      → Result MarkError ValidatedTrustMark
  validate_trust_mark trust_mark_jwt trust_mark_issuers issuer_jwks options = do
    decoded ← found undecodable (decode_entity_statement platform trust_mark_jwt)
    _ ← refuse_if (not (is_typ trust_mark_typ decoded.header)) invalid_typ
    _ ← refuse_if (not (is_valid_algorithm (get (js "alg") decoded.header))) unsupported_algorithm
    _ ← refuse_if (not (has_kid decoded.header)) missing_kid
    _ ← refuse_if (not (is_parsed trust_mark decoded.payload)) invalid_payload
    let p = decoded.payload
    let iss = as_string (get (js "iss") p)
    let mark_type = as_string (get (js "trust_mark_type") p)
    _ ←
        refuse_if (is_unexpected options.expected_subject (as_string (get (js "sub") p)))
          wrong_subject
    _ ← check_allowed trust_mark_issuers mark_type iss
    _ ← check_verified (
        verify_entity_statement platform trust_mark_jwt issuer_jwks trust_mark_typ
          options.clock_skew_seconds options.now)
    _ ←
        refuse_if (is_after (time_of (get (js "iat") p)) options.now options.clock_skew_seconds)
          in_the_future
    _ ←
        refuse_if
          (expiry_passed (optional_time (get (js "exp") p)) options.now options.clock_skew_seconds)
          has_expired
    let delegation_jwt = as_string (get (js "delegation") p)
    _ ←
        refuse_if (is_owned options mark_type && not (is_nonempty_text delegation_jwt))
          delegation_required
    delegation ← check_delegation delegation_jwt iss mark_type options
    ok (read_mark p delegation)
