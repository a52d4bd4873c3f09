-- ===== src/Tests/Marks.antt =====
-- The validation of trust marks at a concrete mark with a delegation.
use oidfed.Common.{Str, js, Dict, get, str_eq, refl, none, some, [], ◌∷◌}
use oidfed.Json.{Json, num, str}
use oidfed.Chain.Values.{Platform, natural, strict_equal, truthy}
use oidfed.Chain.Keys.{is_valid_algorithm, select_verification_key, may_verify}
use oidfed.Chain.Signatures.{decode_entity_statement, verify_entity_statement}
use oidfed.Chain.Marks.{
  TrustMarkValidationOptions, ValidatedTrustMark, ValidatedTrustMarkDelegation, validate_trust_mark,
  check_allowed, owner_for, validate_delegation, may_issue, refuse_if, found, check_verified,
}
use oidfed.Chain.Marks.Laws.{IsTrustedMark, validate_trust_mark-IsTrustedMark}
use oidfed.Tests.Chains.{platform, jwk}

abbrev mark_header : Str → Dict Json
mark_header typ = (js "typ", str typ) ∷ (js "alg", str (js "ES256")) ∷ (js "kid", str (js "k")) ∷ []

abbrev mark_payload : Dict Json
mark_payload =
    (js "iss", str (js "I"))
    ∷ (js "sub", str (js "L"))
    ∷ (js "trust_mark_type", str (js "m"))
    ∷ (js "iat", num 1)
    ∷ (js "delegation", str (js "d"))
    ∷ []

abbrev delegation_payload : Dict Json
delegation_payload =
    (js "iss", str (js "O"))
    ∷ (js "sub", str (js "I"))
    ∷ (js "trust_mark_type", str (js "m"))
    ∷ (js "iat", num 1)
    ∷ (js "exp", num 9)
    ∷ []

abbrev marked : Platform
marked = record platform {
  decode_protected_header = λ jwt. get jwt (
      (js "m", mark_header (js "trust-mark+jwt"))
      ∷ (js "d", mark_header (js "trust-mark-delegation+jwt"))
      ∷ []);
  decode_jwt = λ jwt. get jwt ((js "m", mark_payload) ∷ (js "d", delegation_payload) ∷ []);
  jwt_verify =
      λ key alg skew now jwt. get jwt ((js "m", mark_payload) ∷ (js "d", delegation_payload) ∷ []);
}

abbrev mark_options : TrustMarkValidationOptions
mark_options = record {
  clock_skew_seconds = 0;
  now = 5;
  trust_mark_owners = some ((js "m", record { sub = js "O"; jwks = jwk ∷ [] }) ∷ []);
  expected_subject = some (js "L");
}

abbrev delegation : ValidatedTrustMarkDelegation
delegation = record {
  issuer = js "O";
  subject = js "I";
  trust_mark_type = js "m";
  issued_at = natural 1;
  expires_at = some (natural 9);
}

abbrev mark : ValidatedTrustMark
mark = record {
  trust_mark_type = js "m";
  issuer = js "I";
  subject = js "L";
  issued_at = natural 1;
  expires_at = none;
  delegation = some delegation;
}

validate_trust_mark-IsTrustedMark_example :
    IsTrustedMark marked mark_options (js "m") ((js "m", js "I" ∷ []) ∷ []) (jwk ∷ []) mark
unfolding validate_trust_mark validate_delegation may_issue refuse_if found check_verified get
    str_eq strict_equal truthy is_valid_algorithm select_verification_key may_verify
    decode_entity_statement verify_entity_statement check_allowed owner_for
validate_trust_mark-IsTrustedMark_example =
    validate_trust_mark-IsTrustedMark marked mark_options (js "m") ((js "m", js "I" ∷ []) ∷ [])
      (jwk ∷ []) mark refl
