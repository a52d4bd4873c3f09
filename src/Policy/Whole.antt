-- ===== src/Policy/Whole.antt =====
-- Resolution and application of whole policies: the demands of a chain's statements on the metadata
-- that is left of an entity.
use oidfed.Common.{
  Str, Dict, get, put, get-put, put-Distinct, Distinct, str_eq, str_eq_iff, ◌≡◌, refl, ◌∙◌, false,
  none, some, List, [], ◌∷◌, In, inl, inr, arith, Bool-cases, Result, ok, >>=-ok,
}
use mathlib.Core.List.{reverse}
use oidfed.Json.{Json}
use oidfed.Policy.Operators.{OpName, PolicyOperatorDefinition}
use oidfed.Policy.Names.{OpMap}
use oidfed.Policy.Standard.{operators}
use oidfed.Policy.Custom.{Lookup, build_operator_lookup, lookup_with}
use oidfed.Policy.Merge.{
  Policy, PolicyClaims, PolicyError, or_empty, merge_entries, merge_params, merge_param,
  merge_types, merge_statements, resolve_metadata_policy,
}
use oidfed.Policy.Merge.Entries.{Values, Values-nil, merge_entries-Values}
use oidfed.Policy.Merge.Resolve.{AreJsonClaims, resolve_inv, resolve_metadata_policy-Restricts}
use oidfed.Policy.Apply.{
  Params, Metadata, read, is_scope_text, apply_param, apply_params, apply_types,
  apply_metadata_policy, override_types,
}
use oidfed.Policy.Apply.Frame.{param_other, params_other, types_other, apply_inv}
use oidfed.Policy.Apply.Checks.{Satisfies, IsCheck}
use oidfed.Policy.Binding.{resolved_policy-Satisfies}

merge_entries-Distinct :
    {A B : Type 0} (f : Str → List A → B → Result PolicyError (List A)) (d : Dict (List A))
    (entries : Dict B) (d' : Dict (List A))
    → Distinct d
    → merge_entries f d entries ≡ ok d'
    → Distinct d'
unfolding merge_entries
merge_entries-Distinct f d [] d' h e = let same : d ≡ d' = cc e in rw (← same) h
merge_entries-Distinct f d ((k, b) ∷ entries) d' h e =
    let (x, _, later) = >>=-ok (f k (or_empty (get k d)) b) _ e in
    merge_entries-Distinct f (put k x d) entries d' (put-Distinct k x d h) later

-- A policy whose types, and whose parameters of each type, stand once.
abbrev pub StandsOnce : Policy → Type 0
StandsOnce policy = Distinct policy × Values Distinct policy

module _ (lookup : Lookup) where
  merge_types-StandsOnce :
      (known policy known' : Policy)
      → StandsOnce known
      → merge_types lookup known policy ≡ ok known'
      → StandsOnce known'
  unfolding merge_types merge_params
  merge_types-StandsOnce known policy known' (once, inside) e = (
    merge_entries-Distinct (merge_params lookup) known policy known' once e,
    merge_entries-Values (merge_params lookup) Distinct (λ params. Unit) tt
        (λ k a b a' h g merged.
          merge_entries-Distinct (λ param. merge_param lookup k param) a b a' h merged)
        known policy known' inside (λ k b m. tt) e,
  )

  merge_statements-StandsOnce :
      (known : Policy) (stmts : List PolicyClaims) (known' : Policy)
      → StandsOnce known
      → merge_statements lookup known stmts ≡ ok known'
      → StandsOnce known'
  unfolding merge_statements
  merge_statements-StandsOnce known [] known' h e =
      let same : known ≡ known' = cc e in rw (← same) h
  merge_statements-StandsOnce known (stmt ∷ stmts) known' h e =
      let (mid, here, later) =
        >>=-ok (merge_types lookup known (or_empty stmt.metadata_policy)) _ e in
      merge_statements-StandsOnce mid stmts known'
        (merge_types-StandsOnce known (or_empty stmt.metadata_policy) mid h here) later

resolve-StandsOnce :
    (stmts : List PolicyClaims) (customs : List PolicyOperatorDefinition) (policy : Policy)
    → resolve_metadata_policy stmts customs ≡ ok policy
    → StandsOnce policy
resolve-StandsOnce stmts customs policy e =
    let (_, _, merged) = resolve_inv stmts customs policy e in
    merge_statements-StandsOnce (build_operator_lookup customs) [] (reverse stmts) policy
      (tt, Values-nil Distinct) merged

module _ (to_string : Json → Str) (lookup : Lookup) where
  read_of_get : (p : Str) (a b : Params) → get p a ≡ get p b → read p a ≡ read p b
  unfolding read
  read_of_get p a b e = rw (read, e) refl

  -- The application of one parameter's operators within that of a type's.
  apply_params_at :
      (entity_type param : Str) (params : Params) (policies : Dict (OpMap Json)) (params' : Params)
      (ops : OpMap Json)
      → Distinct policies
      → get param policies ≡ some ops
      → apply_params to_string lookup entity_type params policies ≡ ok params'
      → (mid : Params) × (mid' : Params) × (read param mid ≡ read param params)
        × (apply_param to_string entity_type param lookup mid ops ≡ ok mid')
        × (read param params' ≡ read param mid')
  unfolding apply_params get
  apply_params_at entity_type param params [] params' ops once at e = absurd (cc at)
  apply_params_at entity_type param params ((k, known) ∷ policies) params' ops (fresh, once) at e =
      let (next, here, later) =
        >>=-ok (apply_param to_string entity_type k lookup params known) _ e in
      elim (Bool-cases (str_eq k param)) [
        | inl same ↦
            let key : k ≡ param = (str_eq_iff k param).0 same in
            let ops_same : known ≡ ops = ground (arith, same, at) in
            let fresh' : get param policies ≡ none = rw key at fresh in
            (
              params,
              next,
              refl,
              rw (← key, ← ops_same) here,
              read_of_get param params' next (
                  params_other to_string entity_type param lookup next policies params' fresh'
                    later),
            )
        | inr other ↦
            let (mid, mid', start, applied, end') =
              apply_params_at entity_type param next policies params' ops once
                (ground (arith, other, at)) later in
            (
              mid,
              mid',
              start
                  ∙ read_of_get param next params (
                      param_other to_string entity_type k param lookup params known next other
                        here),
              applied,
              end',
            )
      ]

  -- The application of one type's policies within the whole.
  apply_types_at :
      (entity_type : Str) (m : Metadata) (policy : Policy) (m' : Metadata)
      (policies : Dict (OpMap Json))
      → Distinct policy
      → get entity_type policy ≡ some policies
      → apply_types to_string lookup m policy ≡ ok m'
      → (params' : Params) × (apply_params to_string lookup entity_type
            (or_empty (get entity_type m))
            policies
          ≡ ok params')
        × (get entity_type m' ≡ some params')
  unfolding apply_types get
  apply_types_at entity_type m [] m' policies once at e = absurd (cc at)
  apply_types_at entity_type m ((k, known) ∷ policy) m' policies (fresh, once) at e =
      let (params, here, later) =
        >>=-ok (apply_params to_string lookup k (or_empty (get k m)) known) _ e in
      elim (Bool-cases (str_eq k entity_type)) [
        | inl same ↦
            let key : k ≡ entity_type = (str_eq_iff k entity_type).0 same in
            let known_same : known ≡ policies = ground (arith, same, at) in
            let fresh' : get entity_type policy ≡ none = rw key at fresh in
            (
              params,
              rw (← key, ← known_same) here,
              types_other to_string entity_type lookup (put k params m) policy m' fresh' later
                  ∙ rw (get-put k entity_type params m, same) refl,
            )
        | inr other ↦
            let (params', applied, found) =
              apply_types_at entity_type (put k params m) policy m' policies once
                (ground (arith, other, at)) later in
            let kept : get entity_type (put k params m) ≡ get entity_type m =
              rw (get-put k entity_type params m, other) refl in
            (params', rw kept at applied, found)
      ]

-- If the policies of a chain's statements resolve with the standard operators and hold JSON values,
-- and the resolved policy applies to an entity's metadata, then, whatever else the policy has, the
-- metadata that is left meets the demand of each checking operator that any statement states for a
-- parameter whose value was no scope text.
pub whole_policy-Satisfies :
    (to_string : Json → Str) (stmts : List PolicyClaims) (policy : Policy) (m m' : Metadata)
    (stmt : PolicyClaims) (entity_type param : Str) (params : Dict (OpMap Json)) (ops : OpMap Json)
    (op : OpName) (def : PolicyOperatorDefinition) (v : Json)
    → AreJsonClaims stmts
    → resolve_metadata_policy stmts [] ≡ ok policy
    → apply_metadata_policy to_string m policy none [] ≡ ok m'
    → In stmt stmts
    → In (entity_type, params) (or_empty stmt.metadata_policy)
    → In (param, ops) params
    → In (op, v) ops
    → operators op ≡ some def
    → IsCheck op
    → is_scope_text param (read param (or_empty (get entity_type m))) ≡ false
    → Satisfies op v (read param (or_empty (get entity_type m')))
unfolding build_operator_lookup lookup_with override_types
whole_policy-Satisfies to_string stmts policy m m' stmt entity_type param params ops op def v json e
      applied i n o q std c text =
    let (policies, at_type, (resolved, at_param, _)) =
      resolve_metadata_policy-Restricts stmts [] policy stmt entity_type param params ops op def v
        json e i n o q std in
    let (once, inside) = resolve-StandsOnce stmts [] policy e in
    let (params', ran, found) =
      apply_types_at to_string operators entity_type m policy m' policies once at_type
        (apply_inv to_string m policy none [] m' applied) in
    let (mid, mid', start, step, end') =
      apply_params_at to_string operators entity_type param (or_empty (get entity_type m)) policies
        params' resolved (inside entity_type policies at_type) at_param ran in
    let good : Satisfies op v (read param mid') =
      resolved_policy-Satisfies to_string stmts policy stmt entity_type param params ops op def v
        policies resolved mid mid' json e i n o q std c at_type at_param (rw start text) step in
    rw found (rw end' good)
