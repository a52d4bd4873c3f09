-- ===== src/Policy/Merge/Sound.antt =====
-- What a resolved metadata policy guarantees about the statements that it was merged from.
use oidfed.Common.{Str, Dict, ◌≡◌, some, [], In, ok, >>=-ok}
use oidfed.Json.{Json}
use oidfed.Policy.Operators.{OpName, PolicyOperatorDefinition}
use oidfed.Policy.Names.{OpMap, op_get}
use oidfed.Policy.Standard.{operators}
use oidfed.Policy.Custom.{Lookup}
use oidfed.Policy.Merge.{
  Policy, merge_operators, known_operators, check_pairs, merge_param, merge_params, merge_types,
}
use oidfed.Policy.Merge.Entries.{
  Values, Found, Values-nil, merge_entries-Values, merge_entries_keep, merge_entries_establish,
}
use oidfed.Policy.Merge.Operators.{
  HasStandard, IsValid, Restricts, AreJson, merge_operators-IsValid, merge_operators_keep,
  merge_operators_establish,
}
use oidfed.Policy.Merge.Pairs.{Combines, check_pairs-Combines}

-- A parameter's operators are valid and combine with one another.
abbrev pub IsSound : Lookup → OpMap Json → Type 0
IsSound lookup ops = IsValid ops × Combines lookup ops

-- The operator values of a statement's policy are JSON values.
abbrev pub HoldsJson : Dict (OpMap Json) → Type 0
HoldsJson params = (param : Str) (ops : OpMap Json) → In (param, ops) params → AreJson ops

abbrev pub IsJsonPolicy : Policy → Type 0
IsJsonPolicy policy =
    (entity_type : Str) (params : Dict (OpMap Json))
    → In (entity_type, params) policy
    → HoldsJson params

module _ (lookup : Lookup) (standard : HasStandard lookup) where
  IsSound-nil : IsSound lookup []
  unfolding op_get
  IsSound-nil = (λ op def v std e. absurd (cc e), λ a b da db v w ka kb ne e. absurd (cc e))

  merge_param_inv :
      (entity_type param : Str) (known ops known' : OpMap Json)
      → merge_param lookup entity_type param known ops ≡ ok known'
      → (merge_operators lookup entity_type param known ops ≡ ok known')
        × (check_pairs lookup entity_type param (known_operators lookup entity_type param known')
            ≡ ok tt)
  unfolding merge_param
  merge_param_inv entity_type param known ops known' e =
      let (mid, merged, rest) = >>=-ok (merge_operators lookup entity_type param known ops) _ e in
      let (_, checked, last) =
        >>=-ok (check_pairs lookup entity_type param (known_operators lookup entity_type param mid))
          _ rest in
      let same : mid ≡ known' = cc last in (rw (← same) merged, rw (← same) checked)

  merge_param-IsSound :
      (entity_type param : Str) (known ops known' : OpMap Json)
      → IsSound lookup known
      → AreJson ops
      → merge_param lookup entity_type param known ops ≡ ok known'
      → IsSound lookup known'
  merge_param-IsSound entity_type param known ops known' (valid, _) json e =
      let (merged, checked) = merge_param_inv entity_type param known ops known' e in
      (
        merge_operators-IsValid lookup standard entity_type param known ops known' valid json
            merged,
        check_pairs-Combines lookup entity_type param known' checked,
      )

  merge_params-Values :
      (entity_type : Str) (known params known' : Dict (OpMap Json))
      → Values (IsSound lookup) known
      → HoldsJson params
      → merge_params lookup entity_type known params ≡ ok known'
      → Values (IsSound lookup) known'
  unfolding merge_params
  merge_params-Values entity_type known params known' h json e =
      merge_entries-Values (merge_param lookup entity_type) (IsSound lookup) AreJson IsSound-nil
        (merge_param-IsSound entity_type) known params known' h json e

  pub merge_types-Values :
      (known policy known' : Policy)
      → Values (Values (IsSound lookup)) known
      → IsJsonPolicy policy
      → merge_types lookup known policy ≡ ok known'
      → Values (Values (IsSound lookup)) known'
  unfolding merge_types
  merge_types-Values known policy known' h json e =
      merge_entries-Values (merge_params lookup) (Values (IsSound lookup)) HoldsJson
        (Values-nil (IsSound lookup)) merge_params-Values known policy known' h json e

  module _ (op : OpName) (def : PolicyOperatorDefinition) (v : Json)
      (std : operators op ≡ some def) where
    merge_param_keep :
        (entity_type param : Str) (known ops known' : OpMap Json)
        → IsSound lookup known
        → AreJson ops
        → Restricts op v known
        → merge_param lookup entity_type param known ops ≡ ok known'
        → Restricts op v known'
    merge_param_keep entity_type param known ops known' (valid, _) json r e =
        merge_operators_keep lookup standard entity_type param known ops known' op def v std valid
          json (merge_param_inv entity_type param known ops known' e).0 r

    merge_params_keep :
        (param entity_type : Str) (known params known' : Dict (OpMap Json))
        → Values (IsSound lookup) known
        → HoldsJson params
        → Found param (Restricts op v) known
        → merge_params lookup entity_type known params ≡ ok known'
        → Found param (Restricts op v) known'
    unfolding merge_params
    merge_params_keep param entity_type known params known' h json r e =
        merge_entries_keep (merge_param lookup entity_type) (IsSound lookup) AreJson IsSound-nil
          (merge_param-IsSound entity_type) (Restricts op v) (merge_param_keep entity_type) param
          known params known' h json e r

    pub merge_types_keep :
        (entity_type param : Str) (known policy known' : Policy)
        → Values (Values (IsSound lookup)) known
        → IsJsonPolicy policy
        → merge_types lookup known policy ≡ ok known'
        → Found entity_type (Found param (Restricts op v)) known
        → Found entity_type (Found param (Restricts op v)) known'
    unfolding merge_types
    merge_types_keep entity_type param known policy known' h json e r =
        merge_entries_keep (merge_params lookup) (Values (IsSound lookup)) HoldsJson
          (Values-nil (IsSound lookup)) merge_params-Values (Found param (Restricts op v))
          (merge_params_keep param) entity_type known policy known' h json e r

    pub merge_types_establish :
        (entity_type param : Str) (known policy known' : Policy) (params : Dict (OpMap Json))
        (ops : OpMap Json)
        → Values (Values (IsSound lookup)) known
        → IsJsonPolicy policy
        → merge_types lookup known policy ≡ ok known'
        → In (entity_type, params) policy
        → In (param, ops) params
        → In (op, v) ops
        → Found entity_type (Found param (Restricts op v)) known'
    unfolding merge_types merge_params
    merge_types_establish entity_type param known policy known' params ops h json e m n o =
        merge_entries_establish (merge_params lookup) (Values (IsSound lookup)) HoldsJson
          (Values-nil (IsSound lookup)) merge_params-Values (Found param (Restricts op v))
          (merge_params_keep param) entity_type params known policy known'
          (λ a a' sound holds e'.
            merge_entries_establish (merge_param lookup entity_type) (IsSound lookup) AreJson
              IsSound-nil (merge_param-IsSound entity_type) (Restricts op v)
              (merge_param_keep entity_type) param ops a params a'
              (λ b b' (valid, _) are e''.
                merge_operators_establish lookup standard entity_type param b ops b' op def v std
                  valid are (merge_param_inv entity_type param b ops b' e'').0 o)
              sound holds e' n)
          h json e m
