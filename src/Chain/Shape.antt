-- ===== src/Chain/Shape.antt =====
-- The shape of one statement: `validateMetadataPolicyShape`, `validateTrustMarkReferenceSyntax` and
-- `validateRawStatementShape` of packages/core/src/trust-chain/validate.ts.
use oidfed.Common.{
  ℕ, Str, js, Dict, get, str_eq, any, not, ◌&&◌, ◌||◌, ◌==◌, Option, none, some, List, [], ◌∷◌, map,
  if◌then◌else◌,
}
use oidfed.Json.{Json, str, obj, entries}
use oidfed.MetadataValues.{find_invalid_metadata_null_paths, Component}
use oidfed.Authority.Shape.{standard_policy_operators}
use oidfed.Chain.Values.{
  Platform, Schema, entity_configuration, subordinate_statement, strict_equal, is_json_object,
  as_array,
}
use oidfed.Chain.Errors.{
  ValidationError, trust_chain_invalid, field_error, add_if, flat_map, concat,
}
use oidfed.Chain.Signatures.{decode_entity_statement}

-- `String(issue.path[0])`, or the default where it is missing or empty.
abbrev pub issue_field : Str → Option Str → Str
issue_field default_field none = default_field
issue_field default_field (some []) = default_field
issue_field default_field (some (c ∷ s)) = c ∷ s

unfoldable pub add_schema_issues : List (Option Str) → ℕ → Str → List ValidationError
add_schema_issues issues j default_field =
    map (λ issue. field_error trust_chain_invalid j (issue_field default_field issue) 1) issues

-- The inner loop over the parameters of one entity type.
unfoldable pub check_parameter_policies : ℕ → Json → List ValidationError
check_parameter_policies j (obj fs) =
    flat_map
      (λ (e : Str × Json).
        add_if (not (is_json_object e.1))
          (field_error trust_chain_invalid j (js "metadata_policy") 19))
      (entries fs)
check_parameter_policies j _ = field_error trust_chain_invalid j (js "metadata_policy") 19 ∷ []

unfoldable pub validate_metadata_policy_shape : Option Json → ℕ → List ValidationError
validate_metadata_policy_shape none j = []
validate_metadata_policy_shape (some (obj fs)) j =
    flat_map (λ (e : Str × Json). check_parameter_policies j e.1) (entries fs)
validate_metadata_policy_shape (some _) j =
    field_error trust_chain_invalid j (js "metadata_policy") 19 ∷ []

unfoldable pub check_metadata_objects : Option Json → ℕ → List ValidationError
check_metadata_objects none j = []
check_metadata_objects (some (obj fs)) j =
    flat_map
      (λ (e : Str × Json).
        add_if (not (is_json_object e.1)) (field_error trust_chain_invalid j (js "metadata") 16))
      (entries fs)
check_metadata_objects (some _) j = field_error trust_chain_invalid j (js "metadata") 16 ∷ []

abbrev pub check_crit_operator : ℕ → Json → List ValidationError
check_crit_operator j (str operator) =
    add_if (any (str_eq operator) standard_policy_operators)
      (field_error trust_chain_invalid j (js "metadata_policy_crit") 19)
check_crit_operator j _ = []

module _ (platform : Platform) where
  -- A reference with both texts: the token is decoded and its type compared.
  unfoldable pub check_trust_mark_ref : ℕ → Option Json → Option Json → List ValidationError
  check_trust_mark_ref j (some (str trust_mark_type)) (some (str jwt)) =
      elim (decode_entity_statement platform jwt) [
        | none ↦ field_error trust_chain_invalid j (js "trust_marks") 16 ∷ []
        | some decoded ↦
            add_if
              (not (
                strict_equal (get (js "trust_mark_type") decoded.payload)
                  (some (str trust_mark_type))))
              (field_error trust_chain_invalid j (js "trust_marks") 16)
      ]
  check_trust_mark_ref j _ _ = []

  abbrev pub check_trust_mark_entry : ℕ → Json → List ValidationError
  check_trust_mark_entry j (obj fs) =
      check_trust_mark_ref j (get (js "trust_mark_type") (entries fs))
        (get (js "trust_mark") (entries fs))
  check_trust_mark_entry j _ = []

  unfoldable pub validate_trust_mark_reference_syntax : Option Json → ℕ → List ValidationError
  validate_trust_mark_reference_syntax trust_marks j =
      flat_map (check_trust_mark_entry j) (as_array trust_marks)

  unfoldable pub add_metadata_null_errors : Option Json → ℕ → List ValidationError
  add_metadata_null_errors (some (obj fs)) j =
      map (λ (path : List Component). field_error trust_chain_invalid j (js "metadata") 16)
        (find_invalid_metadata_null_paths platform.is_integer (entries fs))
  add_metadata_null_errors _ j = []

  -- The schema of a statement by its place in the chain.
  abbrev pub schema_of : Dict Json → ℕ → ℕ → Schema
  schema_of payload j last_index =
      if j == 0
        || (j == last_index && strict_equal (get (js "iss") payload) (get (js "sub") payload))
      then entity_configuration
      else subordinate_statement

  unfoldable pub validate_raw_statement_shape : Dict Json → ℕ → ℕ → List ValidationError
  validate_raw_statement_shape payload j last_index = concat (
      add_schema_issues (platform.schema_issues (schema_of payload j last_index) payload) j
        (js "payload")
      ∷ check_metadata_objects (get (js "metadata") payload) j
      ∷ add_metadata_null_errors (get (js "metadata") payload) j
      ∷ validate_metadata_policy_shape (get (js "metadata_policy") payload) j
      ∷ validate_trust_mark_reference_syntax (get (js "trust_marks") payload) j
      ∷ flat_map (check_crit_operator j) (as_array (get (js "metadata_policy_crit") payload))
      ∷ [])
