-- ===== src/Policy/Apply/Frame.antt =====
-- What `applyMetadataPolicy` leaves alone, and that its output holds no null.
use oidfed.Common.{
  Str, Dict, get, put, delete, get-put, get-delete, absent_cons, str_eq, ◌≡◌, refl, ap, ◌∙◌, false,
  Option, none, some, List, [], ◌∷◌, ◌⊎◌, inl, inr, arith, Bool-cases, ok, >>=-ok, map,
}
use oidfed.Json.{Json, null, str, arr, elems}
use oidfed.Policy.Operators.{
  OpName, PolicyOperatorDefinition, Value, OpResult, keep, removed, failed,
}
use oidfed.Policy.Names.{OpMap}
use oidfed.Policy.Custom.{Lookup, validate_custom_operators, build_operator_lookup}
use oidfed.Policy.Merge.{Policy, or_empty}
use oidfed.Policy.Scope.{denormalize_scope}
use oidfed.Policy.Apply.{
  Params, Metadata, read, override_params, override_types, Step, known_steps, sort_steps,
  is_scope_text, words, text_of, join_scope, store_result, apply_steps, apply_param, apply_params,
  apply_types, from_custom, apply_metadata_policy,
}

-- An operator's result is stored under the parameter, or the parameter goes.
store_other :
    (entity_type param j : Str) (op : OpName) (params : Params) (r : OpResult) (params' : Params)
    → str_eq param j ≡ false
    → store_result entity_type param op params r ≡ ok params'
    → get j params' ≡ get j params
unfolding store_result
store_other entity_type param j op params (failed why) params' ne e = cc e
store_other entity_type param j op params removed params' ne e =
    let same : delete param params ≡ params' = cc e in
    rw (← same) (ground (arith, get-delete param j params))
store_other entity_type param j op params (keep none) params' ne e =
    let same : put param none params ≡ params' = cc e in
    rw (← same) (ground (arith, get-put param j none params))
store_other entity_type param j op params (keep (some null)) params' ne e = cc e
store_other entity_type param j op params (keep (some v)) params' ne e =
    let same : put param (some v) params ≡ params' = cc e in
    rw (← same) (ground (arith, get-put param j (some v) params))

steps_other :
    (entity_type param j : Str) (params : Params) (ss : List Step) (params' : Params)
    → str_eq param j ≡ false
    → apply_steps entity_type param params ss ≡ ok params'
    → get j params' ≡ get j params
unfolding apply_steps
steps_other entity_type param j params [] params' ne e = cc e
steps_other entity_type param j params ((def, op, v) ∷ ss) params' ne e =
    let (mid, here, later) =
      >>=-ok (store_result entity_type param op params (def.apply (read param params) v)) _ e in
    steps_other entity_type param j mid ss params' ne later
    ∙ store_other entity_type param j op params (def.apply (read param params) v) mid ne here

module _ (to_string : Json → Str) where
  -- `join_scope` writes under the parameter or nowhere.
  pub join_scope_cases :
      (param : Str) (params : Params)
      → (join_scope to_string param params ≡ params)
        ⊎ ((s : Str) × (join_scope to_string param params ≡ put param (some (str s)) params))
  join_scope_cases param params = go (read param params) refl
    where
      go :
          (x : Value)
          → read param params ≡ x
          → (join_scope to_string param params ≡ params)
            ⊎ ((s : Str) × (join_scope to_string param params ≡ put param (some (str s)) params))
      go (some (arr xs)) e =
          inr (denormalize_scope (map (text_of to_string) (elems xs)), rw (e, join_scope))
      go none e = inl (rw (e, join_scope))
      go (some v) e = inl (rw (e, join_scope))

  pub param_other :
      (entity_type param j : Str) (lookup : Lookup) (params : Params) (ops : OpMap Json)
      (params' : Params)
      → str_eq param j ≡ false
      → apply_param to_string entity_type param lookup params ops ≡ ok params'
      → get j params' ≡ get j params
  unfolding apply_param
  param_other entity_type param j lookup params ops params' ne e =
      elim (Bool-cases (is_scope_text param (read param params))) [
        | inr plain ↦
            steps_other entity_type param j params (sort_steps (known_steps lookup ops)) params' ne
              (rw plain at e)
        | inl text ↦
            let x = words (read param params) in
            let steps = sort_steps (known_steps lookup ops) in
            let (mid, here, later) =
              >>=-ok (apply_steps entity_type param (put param x params) steps) _ (rw text at e) in
            let rejoined : join_scope to_string param mid ≡ params' = cc later in
            rw (← rejoined) (
              joined_other mid
              ∙ steps_other entity_type param j (put param x params) steps mid ne here
              ∙ ground (arith, get-put param j x params))
      ]
    where
      joined_other : (mid : Params) → get j (join_scope to_string param mid) ≡ get j mid
      joined_other mid = elim (join_scope_cases param mid) [
        | inl same ↦ ap (get j) same
        | inr (s, same) ↦ ap (get j) same ∙ ground (arith, get-put param j (some (str s)) mid)
      ]

  pub params_other :
      (entity_type j : Str) (lookup : Lookup) (params : Params) (policies : Dict (OpMap Json))
      (params' : Params)
      → get j policies ≡ none
      → apply_params to_string lookup entity_type params policies ≡ ok params'
      → get j params' ≡ get j params
  unfolding apply_params
  params_other entity_type j lookup params [] params' absent e = cc e
  params_other entity_type j lookup params ((param, ops) ∷ policies) params' absent e =
      let (mid, here, later) =
        >>=-ok (apply_param to_string entity_type param lookup params ops) _ e in
      let (ne, absent') = absent_cons j param ops policies absent in
      params_other entity_type j lookup mid policies params' absent' later
      ∙ param_other entity_type param j lookup params ops mid ne here

  pub types_other :
      (j : Str) (lookup : Lookup) (m : Metadata) (policy : Policy) (m' : Metadata)
      → get j policy ≡ none
      → apply_types to_string lookup m policy ≡ ok m'
      → get j m' ≡ get j m
  unfolding apply_types
  types_other j lookup m [] m' absent e = cc e
  types_other j lookup m ((entity_type, policies) ∷ types) m' absent e =
      let (params, here, later) =
        >>=-ok (apply_params to_string lookup entity_type (or_empty (get entity_type m)) policies) _
          e in
      let (ne, absent') = absent_cons j entity_type policies types absent in
      types_other j lookup (put entity_type params m) types m' absent' later
      ∙ ground (arith, get-put entity_type j params m)

  -- The steps of a successful application.
  pub apply_inv :
      (m : Metadata) (policy : Policy) (superior : Option Metadata)
      (customs : List PolicyOperatorDefinition) (m' : Metadata)
      → apply_metadata_policy to_string m policy superior customs ≡ ok m'
      → apply_types to_string
          (build_operator_lookup customs)
          (override_types m (or_empty superior))
          policy
        ≡ ok m'
  unfolding apply_metadata_policy
  apply_inv m policy superior customs m' e =
      (>>=-ok (from_custom to_string (validate_custom_operators customs)) _ e).2

override_types_other :
    (j : Str) (m superior : Metadata)
    → get j superior ≡ none
    → get j (override_types m superior) ≡ get j m
unfolding override_types
override_types_other j m [] absent = refl
override_types_other j m ((k, params) ∷ types) absent =
    let (ne, absent') = absent_cons j k params types absent in
    let entry = override_params (or_empty (get k m)) params in
    override_types_other j (put k entry m) types absent' ∙ ground (arith, get-put k j entry m)

-- A successful application leaves the metadata of every entity type as it was that neither the
-- policy nor the superior's override names.
pub apply_metadata_policy_other :
    (to_string : Json → Str) (m : Metadata) (policy : Policy) (superior : Option Metadata)
    (customs : List PolicyOperatorDefinition) (m' : Metadata) (entity_type : Str)
    → apply_metadata_policy to_string m policy superior customs ≡ ok m'
    → get entity_type policy ≡ none
    → get entity_type (or_empty superior) ≡ none
    → get entity_type m' ≡ get entity_type m
apply_metadata_policy_other to_string m policy superior customs m' entity_type e absent absent' =
    types_other to_string entity_type (build_operator_lookup customs)
      (override_types m (or_empty superior)) policy m' absent
      (apply_inv to_string m policy superior customs m' e)
    ∙ override_types_other entity_type m (or_empty superior) absent'
