-- ===== src/Tests/Chains.antt =====
-- The validation of trust chains at concrete inputs: a leaf below a trust anchor.
use oidfed.Common.{Str, js, Dict, get, str_eq, ◌≡◌, ◌≢◌, refl, true, none, some, List, [], ◌∷◌, ok}
use oidfed.Chain.Values.{strict_equal, truthy}
use oidfed.Chain.Errors.{flat_map, concat}
use oidfed.Chain.Keys.{is_valid_algorithm, may_verify, select_verification_key}
use oidfed.Chain.Signatures.{decode_entity_statement, verify_entity_statement}
use oidfed.Chain.Shape.{
  add_schema_issues, validate_metadata_policy_shape, check_metadata_objects,
  validate_trust_mark_reference_syntax, add_metadata_null_errors, validate_raw_statement_shape,
}
use oidfed.Chain.Statement.{
  check_alg, check_nulls, check_federation_entity, check_issuer, check_duplicates, check_kind,
  check_registration, check_crit, check_metadata, check_header, check_statement, check_statements,
}
use oidfed.Chain.Links.{
  last, check_leaf, check_link, check_links, check_anchor, check_hints_present, check_hint,
  check_hints_named, check_chain,
}
use oidfed.Chain.Metadata.{
  policy_claims, published_metadata, constraints_of, check_statement_constraints,
  check_all_constraints, restrict_all, resolve_metadata,
}
use oidfed.Chain.Duplicates.{
  second_part, decode_jwt_payload_json, add_metadata_policy_duplicate_member_errors,
}
use oidfed.Chain.Validate.{
  subordinate_statements, calculate_chain_expiration, decode_chain, check_marks, evaluate,
  authenticate, check_parsed, validate_trust_chain_impl,
}
use oidfed.Json.{Json, num, str, arr, obj, items, fields, elems, entries}
use oidfed.Constraints.{check_constraints, check_max_path_length}
use oidfed.Policy.Custom.{validate_custom_operators}
use oidfed.Policy.Merge.{
  resolve_metadata_policy, check_critical, critical_ops, merge_statements, merge_types,
  merge_entries,
}
use oidfed.Chain.Metadata.{apply_resolved, resolve_policies}
use oidfed.Chain.Errors.{check_error, trust_chain_invalid}
use oidfed.Chain.Values.{Jwk, Platform, natural}
use oidfed.Chain.Statement.{ValidationOptions}
use oidfed.Chain.Links.{Link, TrustAnchorSet}
use oidfed.Chain.Validate.{
  Validated, evaluation, no_stage, validate_trust_chain, validate_trust_chain_impl,
  validate_trust_chain_structure,
}
use oidfed.Chain.Validate.Laws.{IsAuthentic, validate-IsAuthentic}
use oidfed.Chain.Validate.Outcome.{
  ExpiresFirst, IsConstrained, without_marks, validate-ExpiresFirst, validate-IsConstrained,
  validate-err, validate_trust_chain-structure,
}

abbrev pub jwk : Jwk
jwk = (js "kid", str (js "k")) ∷ []

abbrev pub header : Dict Json
header =
    (js "typ", str (js "entity-statement+jwt"))
    ∷ (js "alg", str (js "ES256"))
    ∷ (js "kid", str (js "k"))
    ∷ []

abbrev pub jwks : Json
jwks = obj (fields ((js "keys", arr (items (obj (fields jwk) ∷ []))) ∷ []))

abbrev pub leaf_payload : Dict Json
leaf_payload =
    (js "iss", str (js "L"))
    ∷ (js "sub", str (js "L"))
    ∷ (js "iat", num 1)
    ∷ (js "exp", num 9)
    ∷ (js "jwks", jwks)
    ∷ (js "authority_hints", arr (items (str (js "T") ∷ [])))
    ∷ []

abbrev pub anchor_payload : Dict Json
anchor_payload =
    (js "iss", str (js "T"))
    ∷ (js "sub", str (js "L"))
    ∷ (js "iat", num 1)
    ∷ (js "exp", num 8)
    ∷ (js "jwks", jwks)
    ∷ (js "constraints", obj (fields ((js "max_path_length", num 0) ∷ [])))
    ∷ []

abbrev pub payloads : Dict (Dict Json)
payloads = (js "l", leaf_payload) ∷ (js "s", anchor_payload) ∷ []

abbrev pub platform : Platform
platform = record {
  decode_protected_header = λ jwt. some header;
  decode_jwt = λ jwt. get jwt payloads;
  jwt_verify = λ key alg skew now jwt. get jwt payloads;
  schema_issues = λ schema payload. [];
  decode_base64 = λ text. some text;
  parse_literal = λ text. some text;
  reading = λ n. natural n;
  is_integer = λ n. true;
  to_string = λ v. [];
  hostname = λ url. some url;
}

abbrev pub options : ValidationOptions
options = record {
  clock_skew_seconds = 0;
  now = 5;
  verbose_errors = true;
  understood_critical_claims = [];
  explicit_registration_audience = none;
  custom_policy_operators = [];
  trust_mark_issuer_keys = [];
}

abbrev pub anchors : TrustAnchorSet
anchors = (js "T", jwk ∷ []) ∷ []

abbrev pub leaf : Link
leaf = (js "l", record { header = header; payload = leaf_payload })

abbrev pub superior : Link
superior = (js "s", record { header = header; payload = anchor_payload })

abbrev pub tokens : List Str
tokens = js "l" ∷ js "s" ∷ []

abbrev pub validated : Validated
validated = evaluation platform options anchors true no_stage leaf (superior ∷ [])

pub valid : validate_trust_chain_impl platform options anchors true no_stage tokens ≡ ok validated
unfolding get str_eq strict_equal truthy flat_map concat is_valid_algorithm may_verify
    select_verification_key decode_entity_statement verify_entity_statement add_schema_issues
    validate_metadata_policy_shape check_metadata_objects validate_trust_mark_reference_syntax
    add_metadata_null_errors validate_raw_statement_shape check_alg check_nulls
    check_federation_entity check_issuer check_duplicates check_kind check_registration check_crit
    check_metadata check_header check_statement check_statements last check_leaf check_link
    check_links check_anchor check_hints_present check_hint check_hints_named check_chain
    policy_claims published_metadata constraints_of check_statement_constraints
    check_all_constraints restrict_all resolve_metadata second_part decode_jwt_payload_json
    add_metadata_policy_duplicate_member_errors subordinate_statements calculate_chain_expiration
    decode_chain check_marks evaluate authenticate check_parsed validate_trust_chain_impl elems
    items entries fields check_constraints check_max_path_length resolve_metadata_policy
    validate_custom_operators check_critical critical_ops merge_statements merge_types merge_entries
    apply_resolved resolve_policies
valid = refl

validate-IsAuthentic_example : IsAuthentic platform options anchors tokens validated
validate-IsAuthentic_example =
    validate-IsAuthentic platform options anchors true no_stage tokens validated valid

validate-IsConstrained_example : IsConstrained platform options anchors tokens
validate-IsConstrained_example =
    validate-IsConstrained platform options anchors true no_stage tokens validated valid

validate-ExpiresFirst_example : ExpiresFirst platform options anchors validated.chain
validate-ExpiresFirst_example =
    validate-ExpiresFirst platform options anchors true no_stage tokens validated valid

validate-err_example : check_error trust_chain_invalid 1 ∷ [] ≢ []
unfolding validate_trust_chain_impl check_parsed decode_chain
validate-err_example =
    validate-err platform options anchors true no_stage [] (check_error trust_chain_invalid 1 ∷ [])
      refl

validate_trust_chain-structure_example :
    validate_trust_chain_structure platform options anchors tokens
    ≡ ok (without_marks platform options anchors validated)
unfolding validate_trust_chain
validate_trust_chain-structure_example =
    validate_trust_chain-structure platform options anchors tokens validated valid
