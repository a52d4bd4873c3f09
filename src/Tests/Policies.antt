-- ===== src/Tests/Policies.antt =====
-- The resolution of the policies of a chain, and their application, at concrete inputs.
use oidfed.Common.{
  Str, js, Dict, get, put, ◌≡◌, refl, ap, none, some, List, [], ◌∷◌, true, false, str_eq, ok, In,
  inl, inr, Bool-cases,
}
use oidfed.Json.{Json, str, arr, items, elems, deep_equal, IsJson}
use oidfed.Policy.Arrays.{array_intersection}
use oidfed.Policy.Operators.{
  subset_of, other, merged, PolicyOperatorDefinition, both, keep,
  validate_standard_policy_operator_configuration,
}
use oidfed.Policy.Names.{OpMap, op_get, op_put, op_eq}
use oidfed.Policy.Standard.{operators, subset_of_operator, subset_of_merge, subset_of_apply}
use oidfed.Policy.Custom.{
  validate_custom_operators, build_operator_lookup, lookup_with, is_standard,
}
use oidfed.Policy.Merge.{
  Policy, PolicyClaims, or_empty, resolve_metadata_policy, merge_statements, merge_types,
  merge_entries, merge_params, merge_param, merge_operators, merge_operator, check_pairs,
  check_against, known_operators, check_critical, critical_ops, add_names,
}
use oidfed.Policy.Merge.Entries.{Values, Found}
use oidfed.Policy.Merge.Operators.{Restricts}
use oidfed.Policy.Merge.Sound.{IsSound, IsJsonPolicy}
use oidfed.Policy.Merge.Resolve.{
  AreJsonClaims, resolve_metadata_policy-Restricts, resolve_metadata_policy-IsSound,
}
use oidfed.Policy.Merge.Critical.{IsKnown, resolve_metadata_policy_critical}
use oidfed.Policy.Apply.{
  Params, Metadata, read, apply_param, apply_params, apply_types, apply_metadata_policy,
  known_steps, sort_steps, apply_steps, store_result, override_params, override_types,
}
use oidfed.Policy.Apply.Checks.{Satisfies, apply_param-Satisfies}
use oidfed.Policy.Apply.NoNull.{NoNull, apply_metadata_policy-NoNull}
use oidfed.Policy.Binding.{resolved_policy-Satisfies}

abbrev list_of : List Str → Json
list_of [] = arr (items [])
list_of (s ∷ []) = arr (items (str s ∷ []))
list_of (s ∷ t ∷ _) = arr (items (str s ∷ str t ∷ []))

abbrev ab : Json
ab = list_of (js "a" ∷ js "b" ∷ [])

abbrev bc : Json
bc = list_of (js "b" ∷ js "c" ∷ [])

abbrev only_b : Json
only_b = list_of (js "b" ∷ [])

abbrev ops_of : Json → OpMap Json
ops_of v = (subset_of, v) ∷ []

abbrev params_of : Json → Dict (OpMap Json)
params_of v = (js "p", ops_of v) ∷ []

abbrev claims_of : Json → PolicyClaims
claims_of v = record {
  metadata_policy = some ((js "t", params_of v) ∷ []);
  metadata_policy_crit = none;
}

abbrev chain : List PolicyClaims
chain = claims_of bc ∷ claims_of ab ∷ []

abbrev resolved : Policy
resolved = (js "t", params_of only_b) ∷ []

abbrev metadata : Params
metadata = (js "p", some ab) ∷ []

abbrev limited : Params
limited = (js "p", some only_b) ∷ []

abbrev text_of : Json → Str
text_of v = []

claims_of-IsJsonPolicy :
    (v : Json) → IsJson v → IsJsonPolicy (or_empty (claims_of v).metadata_policy)
claims_of-IsJsonPolicy v j t ps m k os n op w q =
    let ps_eq : ps ≡ params_of v = elim m [ inl e ↦ ap (λ x. x.1) e | inr x ↦ absurd x ] in
    let n' : In (k, os) (params_of v) = rw ps_eq at n in
    let os_eq : os ≡ ops_of v = elim n' [ inl e ↦ ap (λ x. x.1) e | inr x ↦ absurd x ] in
    let q' : In (op, w) (ops_of v) = rw os_eq at q in
    let w_eq : w ≡ v = elim q' [ inl e ↦ ap (λ x. x.1) e | inr x ↦ absurd x ] in rw w_eq j

chain_is_json : AreJsonClaims chain
unfolding IsJson items
chain_is_json stmt m = elim m [
  | inl e ↦ rw e (claims_of-IsJsonPolicy bc (tt, (tt, tt)))
  | inr n ↦ elim n [ inl e ↦ rw e (claims_of-IsJsonPolicy ab (tt, (tt, tt))) | inr x ↦ absurd x ]
]

chain_resolves : resolve_metadata_policy chain [] ≡ ok resolved
unfolding resolve_metadata_policy merge_statements merge_types merge_entries merge_params
    merge_param merge_operators merge_operator check_pairs check_against known_operators
    check_critical critical_ops add_names validate_custom_operators build_operator_lookup
    lookup_with op_get op_put op_eq get put str_eq subset_of_merge
    validate_standard_policy_operator_configuration items elems array_intersection deep_equal
chain_resolves = refl

limits_apply : apply_param text_of (js "t") (js "p") operators metadata (ops_of only_b) ≡ ok limited
unfolding apply_param known_steps sort_steps apply_steps store_result read op_get op_eq get put
    str_eq subset_of_apply validate_standard_policy_operator_configuration items elems
    array_intersection deep_equal
limits_apply = refl

resolved_policy-Satisfies_example : Satisfies subset_of ab (read (js "p") limited)
unfolding get read str_eq
resolved_policy-Satisfies_example =
    resolved_policy-Satisfies text_of chain resolved (claims_of ab) (js "t") (js "p") (params_of ab)
      (ops_of ab) subset_of subset_of_operator ab (params_of only_b) (ops_of only_b) metadata
      limited chain_is_json chain_resolves (inr (inl refl)) (inl refl) (inl refl) (inl refl) refl tt
      refl refl refl limits_apply

resolve_metadata_policy-Restricts_example :
    Found (js "t") (Found (js "p") (Restricts subset_of ab)) resolved
resolve_metadata_policy-Restricts_example =
    resolve_metadata_policy-Restricts chain [] resolved (claims_of ab) (js "t") (js "p")
      (params_of ab) (ops_of ab) subset_of subset_of_operator ab chain_is_json chain_resolves
      (inr (inl refl)) (inl refl) (inl refl) (inl refl) refl

resolve_metadata_policy-IsSound_example :
    Values (Values (IsSound (build_operator_lookup []))) resolved
resolve_metadata_policy-IsSound_example =
    resolve_metadata_policy-IsSound chain [] resolved chain_is_json chain_resolves

abbrev intersects : PolicyOperatorDefinition
intersects = record {
  name = other (js "i");
  order = 5;
  action = both;
  apply = λ v p. keep v;
  merge = λ v w. merged v;
  can_combine_with = λ o v w. true;
}

abbrev critical_claims : PolicyClaims
critical_claims = record {
  metadata_policy = none;
  metadata_policy_crit = some (other (js "i") ∷ []);
}

resolve_metadata_policy_critical_example :
    (is_standard (other (js "i")) ≡ false)
    × IsKnown (build_operator_lookup (intersects ∷ [])) (other (js "i"))
unfolding resolve_metadata_policy merge_statements merge_types merge_entries check_critical
    critical_ops add_names validate_custom_operators build_operator_lookup lookup_with op_eq str_eq
resolve_metadata_policy_critical_example =
    resolve_metadata_policy_critical (critical_claims ∷ []) (intersects ∷ []) [] critical_claims
      (other (js "i")) refl (inl refl) (inl refl)

apply_param-Satisfies_example : Satisfies subset_of only_b (read (js "p") limited)
unfolding read str_eq get
apply_param-Satisfies_example =
    apply_param-Satisfies text_of (js "t") (js "p") metadata (ops_of only_b) limited subset_of
      subset_of_operator only_b refl limits_apply refl tt (inl refl)

abbrev entity : Metadata
entity = (js "t", metadata) ∷ (js "u", metadata) ∷ []

abbrev limited_entity : Metadata
limited_entity = (js "t", limited) ∷ (js "u", metadata) ∷ []

policy_applies : apply_metadata_policy text_of entity resolved none [] ≡ ok limited_entity
unfolding apply_metadata_policy apply_types apply_params override_types override_params apply_param
    known_steps sort_steps apply_steps store_result read op_get op_eq get put str_eq subset_of_apply
    validate_standard_policy_operator_configuration items elems array_intersection deep_equal
    validate_custom_operators build_operator_lookup lookup_with
policy_applies = refl

metadata-NoNull : NoNull metadata
unfolding get
metadata-NoNull k x e = elim (Bool-cases (str_eq (js "p") k)) [
  | inl hit ↦ let at : some (some ab) ≡ some x = rw hit at e in λ bad. cc (at, bad)
  | inr miss ↦ absurd (cc (rw miss at e))
]

entity-NoNull : Values NoNull entity
unfolding get
entity-NoNull k x e = elim (Bool-cases (str_eq (js "t") k)) [
  | inl hit ↦
      let at : some metadata ≡ some x = rw hit at e in
      let same : metadata ≡ x = cc at in rw (← same) metadata-NoNull
  | inr miss ↦ elim (Bool-cases (str_eq (js "u") k)) [
    | inl hit ↦
        let at : some metadata ≡ some x = rw (miss, hit) at e in
        let same : metadata ≡ x = cc at in rw (← same) metadata-NoNull
    | inr gone ↦ absurd (cc (rw (miss, gone) at e))
  ]
]

apply_metadata_policy-NoNull_example : Values NoNull limited_entity
apply_metadata_policy-NoNull_example =
    apply_metadata_policy-NoNull text_of entity resolved none [] limited_entity entity-NoNull
      (λ t params m. absurd m) policy_applies
