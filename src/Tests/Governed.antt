-- ===== src/Tests/Governed.antt =====
-- A chain whose trust anchor states a policy, at concrete inputs.
use oidfed.Common.{
  js, Str, List, some, Dict, get, delete, put, str_eq, ◌≡◌, refl, true, [], ◌∷◌, ok, In, inl, inr,
  map, ap,
}
use oidfed.Chain.Values.{strict_equal, truthy}
use oidfed.Chain.Errors.{flat_map, concat}
use oidfed.Chain.Keys.{is_valid_algorithm, may_verify, select_verification_key}
use oidfed.Chain.Signatures.{decode_entity_statement, verify_entity_statement}
use oidfed.Chain.Shape.{
  add_schema_issues, validate_metadata_policy_shape, check_metadata_objects,
  validate_trust_mark_reference_syntax, add_metadata_null_errors, validate_raw_statement_shape,
}
use oidfed.Chain.Statement.{
  check_alg, check_nulls, check_federation_entity, check_issuer, check_duplicates, check_kind,
  check_registration, check_crit, check_metadata, check_header, check_statement, check_statements,
}
use oidfed.Chain.Links.{
  last, check_leaf, check_link, check_links, check_anchor, check_hints_present, check_hint,
  check_hints_named, check_chain,
}
use oidfed.Chain.Metadata.{
  policy_claims, published_metadata, constraints_of, check_statement_constraints,
  check_all_constraints, restrict_all, resolve_metadata,
}
use oidfed.Chain.Duplicates.{
  second_part, decode_jwt_payload_json, add_metadata_policy_duplicate_member_errors,
}
use oidfed.Chain.Validate.{
  subordinate_statements, calculate_chain_expiration, decode_chain, check_marks, evaluate,
  authenticate, check_parsed, validate_trust_chain_impl,
}
use oidfed.Json.{Json, num, str, arr, obj, items, fields, elems, entries}
use oidfed.Constraints.{check_constraints, check_max_path_length}
use oidfed.Policy.Custom.{validate_custom_operators, build_operator_lookup, lookup_with}
use oidfed.Policy.Merge.{
  resolve_metadata_policy, check_critical, critical_ops, merge_statements, merge_types,
  merge_entries, merge_params, merge_param, merge_operators, merge_operator, check_pairs,
  check_against, known_operators, add_names, or_empty,
}
use oidfed.Policy.Apply.{
  read, apply_param, apply_params, apply_types, apply_metadata_policy, known_steps, sort_steps,
  apply_steps, store_result, override_params, override_types,
}
use oidfed.Policy.Names.{OpMap, op_get, op_put, op_eq}
use oidfed.Policy.Operators.{one_of, validate_standard_policy_operator_configuration}
use oidfed.Policy.Standard.{one_of_operator, one_of_apply, one_of_merge}
use oidfed.Policy.Arrays.{array_intersection, contains_element}
use oidfed.Policy.Merge.Sound.{IsJsonPolicy}
use oidfed.Policy.Merge.Resolve.{AreJsonClaims}
use oidfed.Policy.Apply.Checks.{Satisfies}
use oidfed.Json.{IsJson, deep_equal}
use oidfed.Chain.Validate.Policies.{validate-Satisfies}
use oidfed.Chain.Metadata.{apply_resolved, MetadataStage, ContextualMetadataClaim, metadata_of}
use oidfed.Chain.Values.{Platform}
use oidfed.Chain.Links.{Link}
use oidfed.Chain.Validate.{Validated, evaluation, no_stage, validate_trust_chain_impl}
use oidfed.MetadataValues.{find_invalid_metadata_null_paths, walk}
use oidfed.Chain.Statement.{check_inline_jwks}
use oidfed.Chain.Shape.{check_parameter_policies}
use oidfed.Chain.Metadata.{resolve_policies, apply_policy, defer, add_context, merge_superior}
use oidfed.Tests.Chains.{platform, header, jwks, options, anchors}

abbrev choices : Json
choices = arr (items (str (js "a") ∷ str (js "b") ∷ []))

abbrev chooser : Dict Json
chooser = (js "one_of", choices) ∷ []

abbrev demands : Dict (OpMap Json)
demands = (js "p", (one_of, choices) ∷ []) ∷ (js "r", (one_of, choices) ∷ []) ∷ []

abbrev governed_payload : Dict Json
governed_payload =
    (js "iss", str (js "T"))
    ∷ (js "sub", str (js "L"))
    ∷ (js "iat", num 1)
    ∷ (js "exp", num 8)
    ∷ (js "jwks", jwks)
    ∷ (
      js "metadata_policy",
      obj (
          fields (
            (
              js "t",
              obj (fields ((js "p", obj (fields chooser)) ∷ (js "r", obj (fields chooser)) ∷ [])),
            )
            ∷ [])),
    )
    ∷ []

abbrev subject_payload : Dict Json
subject_payload =
    (js "iss", str (js "L"))
    ∷ (js "sub", str (js "L"))
    ∷ (js "iat", num 1)
    ∷ (js "exp", num 9)
    ∷ (js "jwks", jwks)
    ∷ (js "authority_hints", arr (items (str (js "T") ∷ [])))
    ∷ (js "metadata", obj (fields ((js "t", obj (fields ((js "p", str (js "a")) ∷ []))) ∷ [])))
    ∷ []

abbrev payloads : Dict (Dict Json)
payloads = (js "l", subject_payload) ∷ (js "s", governed_payload) ∷ []

abbrev pub governing : Platform
governing = record platform {
  decode_jwt = λ jwt. get jwt payloads;
  jwt_verify = λ key alg skew now jwt. get jwt payloads;
}

abbrev subject : Link
subject = (js "l", record { header = header; payload = subject_payload })

abbrev governor : Link
governor = (js "s", record { header = header; payload = governed_payload })

-- The parameter `r`, which the policy names and nobody publishes.
abbrev pub deferred : List ContextualMetadataClaim
deferred = (record { entity_type = js "t"; parameter = js "r" }) ∷ []

abbrev pub opening : MetadataStage
opening = record { deferred = deferred; context = [] }

abbrev pub context : Json
context = obj (fields ((js "t", obj (fields ((js "r", str (js "b")) ∷ []))) ∷ []))

abbrev pub closing : MetadataStage
closing = record { deferred = []; context = metadata_of (some context) }

abbrev pub governed_at : MetadataStage → Validated
governed_at stage = evaluation governing options anchors true stage subject (governor ∷ [])

abbrev governed : Validated
governed = governed_at no_stage

abbrev Evaluated : MetadataStage → Type 0
Evaluated stage =
    evaluate governing options anchors true stage subject (governor ∷ []) ≡ ok (governed_at stage)

abbrev pub governed_tokens : List Str
governed_tokens = js "l" ∷ js "s" ∷ []

checked : check_parsed governing options anchors governed_tokens ≡ ok (subject, governor ∷ [])
unfolding get str_eq strict_equal truthy flat_map concat is_valid_algorithm decode_entity_statement
    add_schema_issues validate_metadata_policy_shape check_metadata_objects
    validate_trust_mark_reference_syntax add_metadata_null_errors validate_raw_statement_shape
    check_alg check_nulls check_federation_entity check_issuer check_duplicates check_kind
    check_registration check_crit check_metadata check_header check_statement check_statements last
    check_leaf check_link check_links check_anchor check_hints_present check_hint check_hints_named
    check_chain second_part decode_jwt_payload_json add_metadata_policy_duplicate_member_errors
    decode_chain check_parsed elems items entries fields find_invalid_metadata_null_paths walk
    check_inline_jwks check_parameter_policies
checked = refl

trusted : authenticate governing options anchors subject (governor ∷ []) ≡ ok tt
unfolding get str_eq strict_equal truthy concat is_valid_algorithm may_verify
    select_verification_key decode_entity_statement verify_entity_statement authenticate elems items
    entries fields check_leaf check_chain check_links check_link check_anchor last
    check_hints_present check_hints_named check_hint
trusted = refl

pub evaluated :
    Evaluated no_stage
    × Evaluated opening
    × Evaluated closing
    × ((governed_at opening).pending ≡ deferred)
unfolding get str_eq strict_equal truthy concat is_valid_algorithm may_verify
    select_verification_key decode_entity_statement verify_entity_statement policy_claims
    published_metadata constraints_of check_statement_constraints check_all_constraints restrict_all
    resolve_metadata subordinate_statements calculate_chain_expiration check_marks evaluate elems
    items entries fields check_constraints check_max_path_length resolve_metadata_policy
    validate_custom_operators check_critical critical_ops merge_statements merge_types merge_entries
    apply_resolved resolve_policies merge_params merge_param merge_operators merge_operator
    check_pairs check_against known_operators add_names build_operator_lookup lookup_with
    apply_param apply_params apply_types apply_metadata_policy known_steps sort_steps apply_steps
    store_result override_params override_types read put op_get op_put op_eq one_of_apply
    one_of_merge validate_standard_policy_operator_configuration array_intersection deep_equal
    apply_policy defer add_context merge_superior contains_element last delete
evaluated = (refl, refl, refl, refl)

pub governed_valid :
    (stage : MetadataStage)
    → Evaluated stage
    → validate_trust_chain_impl governing options anchors true stage governed_tokens
      ≡ ok (governed_at stage)
unfolding validate_trust_chain_impl
governed_valid stage h = rw checked (rw trusted h)

demands-IsJsonPolicy : IsJsonPolicy ((js "t", demands) ∷ [])
unfolding IsJson items
demands-IsJsonPolicy t ps m k os n op w q =
    let ps_eq : ps ≡ demands = elim m [ inl e ↦ ap (λ x. x.1) e | inr x ↦ absurd x ] in
    let n' : In (k, os) demands = rw ps_eq at n in
    let os_eq : os ≡ (one_of, choices) ∷ [] = elim n' [
      | inl e ↦ ap (λ x. x.1) e
      | inr x ↦ elim x [ inl e ↦ ap (λ x. x.1) e | inr y ↦ absurd y ]
    ] in
    let q' : In (op, w) ((one_of, choices) ∷ []) = rw os_eq at q in
    let w_eq : w ≡ choices = elim q' [ inl e ↦ ap (λ x. x.1) e | inr x ↦ absurd x ] in
    rw w_eq (tt, (tt, tt))

governor-IsJsonPolicy : IsJsonPolicy (or_empty (policy_claims governor).metadata_policy)
unfolding policy_claims get str_eq fields entries
governor-IsJsonPolicy = demands-IsJsonPolicy

governing_is_json : AreJsonClaims (map policy_claims (governor ∷ []))
governing_is_json stmt m = elim m [ inl e ↦ rw e governor-IsJsonPolicy | inr x ↦ absurd x ]

validate-Satisfies_example :
    Satisfies one_of choices
      (read (js "p") (or_empty (get (js "t") governed.chain.resolved_metadata)))
unfolding policy_claims get str_eq fields entries subordinate_statements strict_equal last read
    restrict_all truthy published_metadata merge_superior
validate-Satisfies_example =
    validate-Satisfies governing options anchors true governed_tokens governed subject
      (governor ∷ []) governor (js "t") (js "p") demands ((one_of, choices) ∷ []) one_of
      one_of_operator choices refl (governed_valid no_stage evaluated.0) checked governing_is_json
      (inl refl) (inl refl) (inl refl) (inl refl) refl tt refl
