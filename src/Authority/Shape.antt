-- ===== src/Authority/Shape.antt =====
-- packages/authority/src/utils/subordinate-statement-shape.ts: what a subordinate statement may carry.
-- The messages of the violations are values; a payload is the object of the claims.
pub mod Laws
pub mod Crit
use oidfed.Common.{
  in_object, Str, js, Dict, get, put, has, str_eq, any, filter, map, Bool, true, false, not, ◌&&◌,
  Option, none, some, List, [], ◌∷◌, ◌++◌, if◌then◌else◌, Result, ok, err,
}
use oidfed.Json.{
  fields, Json, null, bool, num, str, arr, obj, Items, Fields, end, field, entries, elems,
}

abbrev pub federation_entity_operational_fields : List Str
federation_entity_operational_fields = map js (
    "federation_collection_endpoint" ∷ "federation_collection_endpoint_auth_methods"
    ∷ "federation_subordinate_events_endpoint"
    ∷ "federation_subordinate_events_endpoint_auth_methods" ∷ "federation_extended_list_endpoint"
    ∷ "federation_extended_list_endpoint_auth_methods" ∷ "federation_fetch_endpoint"
    ∷ "federation_fetch_endpoint_auth_methods" ∷ "federation_historical_keys_endpoint"
    ∷ "federation_historical_keys_endpoint_auth_methods" ∷ "federation_list_endpoint"
    ∷ "federation_list_endpoint_auth_methods" ∷ "federation_resolve_endpoint"
    ∷ "federation_resolve_endpoint_auth_methods" ∷ "federation_trust_mark_endpoint"
    ∷ "federation_trust_mark_endpoint_auth_methods" ∷ "federation_trust_mark_list_endpoint"
    ∷ "federation_trust_mark_list_endpoint_auth_methods" ∷ "federation_trust_mark_status_endpoint"
    ∷ "federation_trust_mark_status_endpoint_auth_methods"
    ∷ "endpoint_auth_signing_alg_values_supported" ∷ [])

unfoldable pub is_federation_entity_operational_field : Str → Bool
is_federation_entity_operational_field key = any (str_eq key) federation_entity_operational_fields

-- The loop over the claims of a `federation_entity` block.
unfoldable pub filter_claims : Dict Json → Dict Json → Dict Json
filter_claims [] filtered = filtered
filter_claims ((k, v) ∷ claims) filtered =
    filter_claims claims
      (if is_federation_entity_operational_field k then filtered else put k v filtered)

-- One round of the loop over the entity types.
unfoldable pub sanitize_block : Str → Json → Dict Json → Dict Json
sanitize_block entity_type claims result =
    if str_eq entity_type (js "federation_entity")
    then (elim claims [
      | obj block ↦ elim (filter_claims (entries block) []) [
        | [] ↦ result
        | c ∷ cs ↦ put entity_type (obj (fields (c ∷ cs))) result
      ]
      | other ↦ put entity_type other result
    ])
    else put entity_type claims result

unfoldable pub sanitize_loop : Dict Json → Dict Json → Dict Json
sanitize_loop [] result = result
sanitize_loop ((entity_type, claims) ∷ metadata) result =
    sanitize_loop metadata (sanitize_block entity_type claims result)

unfoldable pub sanitize_subordinate_metadata : Option (Dict Json) → Option (Dict Json)
sanitize_subordinate_metadata none = none
sanitize_subordinate_metadata (some metadata) = elim (sanitize_loop metadata []) [
  | [] ↦ none
  | c ∷ cs ↦ some (c ∷ cs)
]

pub data Violation : Type 0 where
  forbidden : Str → Violation
  not_array : Violation
  empty_array : Violation
  not_string : Violation
  duplicate : Str → Violation
  standard : Str → Violation
  missing : Str → Violation
  not_object : Violation

abbrev pub subordinate_statement_forbidden_top_level_claims : List Str
subordinate_statement_forbidden_top_level_claims = map js (
    "authority_hints" ∷ "trust_anchor_hints" ∷ "trust_marks" ∷ "trust_mark_issuers"
    ∷ "trust_mark_owners" ∷ "aud" ∷ "trust_anchor" ∷ [])

-- Throws where there are offenders or violations.
abbrev pub refuse_any : List Violation → Result (List Violation) (Unit {0})
refuse_any [] = ok tt
refuse_any (v ∷ vs) = err (v ∷ vs)

unfoldable pub assert_subordinate_statement_shape : Dict Json → Result (List Violation) (Unit {0})
assert_subordinate_statement_shape payload = refuse_any (
    map forbidden
      (filter (λ claim. has claim payload) subordinate_statement_forbidden_top_level_claims))

-- The loop over the names: `check` is what a new name has against it.
unfoldable pub crit_loop :
    (Str → List Violation) → List Json → List Str → List Violation → List Violation
crit_loop check [] seen violations = violations
crit_loop check (str name ∷ crit) seen violations =
    if any (str_eq name) seen
    then crit_loop check crit seen (violations ++ duplicate name ∷ [])
    else crit_loop check crit (name ∷ seen) (violations ++ check name)
crit_loop check (_ ∷ crit) seen violations =
    crit_loop check crit seen (violations ++ not_string ∷ [])

-- The array under a key of the payload.
unfoldable pub assert_names :
    (Str → List Violation) → Option Json → Result (List Violation) (Unit {0})
assert_names check none = ok tt
assert_names check (some (arr vs)) = elim (elems vs) [
  | [] ↦ err (empty_array ∷ [])
  | v ∷ crit ↦ refuse_any (crit_loop check (v ∷ crit) [] [])
]
assert_names check (some _) = err (not_array ∷ [])

-- packages/core/src/constants.ts
abbrev pub standard_entity_statement_claims : List Str
standard_entity_statement_claims = map js (
    "iss" ∷ "sub" ∷ "iat" ∷ "exp" ∷ "jwks" ∷ "metadata" ∷ "metadata_policy" ∷ "constraints" ∷ "crit"
    ∷ "metadata_policy_crit" ∷ "authority_hints" ∷ "trust_anchor_hints" ∷ "trust_marks"
    ∷ "trust_mark_issuers" ∷ "trust_mark_owners" ∷ "aud" ∷ "source_endpoint" ∷ "trust_anchor" ∷ [])

unfoldable pub crit_name : Dict Json → Str → List Violation
crit_name payload name =
    if any (str_eq name) standard_entity_statement_claims
    then standard name ∷ []
    else if in_object name payload
    then []
    else missing name ∷ []

unfoldable pub assert_crit_shape : Dict Json → Result (List Violation) (Unit {0})
assert_crit_shape payload = assert_names (crit_name payload) (get (js "crit") payload)

abbrev pub standard_policy_operators : List Str
standard_policy_operators =
    map js ("value" ∷ "add" ∷ "default" ∷ "one_of" ∷ "subset_of" ∷ "superset_of" ∷ "essential" ∷ [])

unfoldable pub policy_crit_name : Str → List Violation
policy_crit_name name =
    if any (str_eq name) standard_policy_operators then standard name ∷ [] else []

unfoldable pub assert_metadata_policy_crit_shape : Dict Json → Result (List Violation) (Unit {0})
assert_metadata_policy_crit_shape payload =
    assert_names policy_crit_name (get (js "metadata_policy_crit") payload)

unfoldable pub assert_metadata_policy_shape : Dict Json → Result (List Violation) (Unit {0})
assert_metadata_policy_shape payload = elim (get (js "metadata_policy") payload) [
  | none ↦ ok tt
  | some (obj _) ↦ ok tt
  | some _ ↦ err (not_object ∷ [])
]
