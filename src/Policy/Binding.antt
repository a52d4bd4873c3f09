-- ===== src/Policy/Binding.antt =====
-- Resolution and application together: a subordinate's policy cannot relax a superior's.
use oidfed.Common.{
  Str, Dict, get, ◌≡◌, sym, ◌∙◌, true, false, none, some, List, [], ◌∷◌, In, inl, inr, All,
  any-witness, any_intro, arith, Bool-cases, ok, false≢true,
}
use oidfed.Json.{Json, IsJson, deep_equal}
use oidfed.Json.Equality.{deep_equal_sym, deep_equal_trans}
use oidfed.Policy.Operators.{
  OpName, one_of, subset_of, superset_of, essential, Value, PolicyOperatorDefinition, as_array,
  as_boolean,
}
use oidfed.Policy.Arrays.{contains_element, is_subset}
use oidfed.Policy.Arrays.Laws.{All_at, is_subset_at, is_subset_trans}
use oidfed.Policy.Names.{op_eq, op_eq_iff, OpMap, op_get}
use oidfed.Policy.Standard.{operators}
use oidfed.Policy.Standard.Refines.{Refines, as_array-IsJson}
use oidfed.Policy.Merge.{Policy, PolicyClaims, or_empty, resolve_metadata_policy}
use oidfed.Policy.Merge.Resolve.{
  AreJsonClaims, resolve_metadata_policy-Restricts, resolve_metadata_policy-IsSound,
}
use oidfed.Policy.Apply.{Params, read, is_scope_text, apply_param}
use oidfed.Policy.Apply.Checks.{Satisfies, IsCheck, apply_param-Satisfies}

contains_element_mono :
    (xs ys : List Json) (p : Json)
    → All IsJson xs
    → All IsJson ys
    → is_subset xs ys ≡ true
    → contains_element xs p ≡ true
    → contains_element ys p ≡ true
unfolding contains_element
contains_element_mono xs ys p hx hy sub h =
    let (x, m, same) = any-witness (λ item. deep_equal item p) xs h in
    let (y, n, twin) = any-witness (λ s. deep_equal x s) ys (is_subset_at xs ys x sub m) in
    any_intro (λ item. deep_equal item p) y ys n
      (deep_equal_trans y x p
        (deep_equal_sym x y (All_at IsJson xs hx m) (All_at IsJson ys hy n) twin) same)

-- What meets a demand meets the less restrictive one.
Satisfies-mono :
    (op : OpName) (u v : Json) (x : Value)
    → IsJson u
    → IsJson v
    → IsCheck op
    → Refines op u v
    → Satisfies op u x
    → Satisfies op v x
Satisfies-mono one_of u v none hu hv c r s = tt
Satisfies-mono one_of u v (some p) hu hv c r (s, k) = (
  contains_element_mono (as_array u) (as_array v) p (as_array-IsJson u hu) (as_array-IsJson v hv) r
      s,
  k,
)
Satisfies-mono subset_of u v none hu hv c r s = tt
Satisfies-mono subset_of u v (some p) hu hv c r (s, k) =
    (is_subset_trans (as_array p) (as_array u) (as_array v) s r, k)
Satisfies-mono superset_of u v none hu hv c r s = tt
Satisfies-mono superset_of u v (some p) hu hv c r (s, k) =
    (is_subset_trans (as_array v) (as_array u) (as_array p) r s, k)
Satisfies-mono essential u v none hu hv c r s = elim (Bool-cases (as_boolean v)) [
  | inl yes_v ↦ absurd (false≢true (sym s ∙ r yes_v))
  | inr no_v ↦ no_v
]
Satisfies-mono essential u v (some p) hu hv c r s = tt
Satisfies-mono _ u v x hu hv c r s = absurd c

op_get-In : (op : OpName) (ops : OpMap Json) {v : Json} → op_get op ops ≡ some v → In (op, v) ops
unfolding op_get
op_get-In op [] h = absurd (cc h)
op_get-In op ((o, w) ∷ ops) h = elim (Bool-cases (op_eq o op)) [
  | inl e ↦ inl (ground (arith, op_eq_iff o op))
  | inr e ↦ inr (op_get-In op ops (ground arith))
]

-- If the policies of a chain's statements resolve with the standard operators and hold JSON values,
-- and the resolved operators of a parameter that is no scope text apply to an entity's metadata,
-- then the value that is left meets the demand of each checking operator that any statement of the
-- chain states for the parameter, whatever the other statements say.
pub resolved_policy-Satisfies :
    (to_string : Json → Str) (stmts : List PolicyClaims) (pol : Policy) (stmt : PolicyClaims)
    (entity_type param : Str) (params : Dict (OpMap Json)) (ops : OpMap Json) (op : OpName)
    (def : PolicyOperatorDefinition) (v : Json) (resolved : Dict (OpMap Json))
    (resolved_ops : OpMap Json) (metadata metadata' : Params)
    → AreJsonClaims stmts
    → resolve_metadata_policy stmts [] ≡ ok pol
    → In stmt stmts
    → In (entity_type, params) (or_empty stmt.metadata_policy)
    → In (param, ops) params
    → In (op, v) ops
    → operators op ≡ some def
    → IsCheck op
    → get entity_type pol ≡ some resolved
    → get param resolved ≡ some resolved_ops
    → is_scope_text param (read param metadata) ≡ false
    → apply_param to_string entity_type param operators metadata resolved_ops ≡ ok metadata'
    → Satisfies op v (read param metadata')
resolved_policy-Satisfies to_string stmts pol stmt entity_type param params ops op def v resolved
      resolved_ops metadata metadata' json e m n o q std c at_type at_param text applied =
    let (found, at, (found_ops, at', (u, at_op, refines))) =
      resolve_metadata_policy-Restricts stmts [] pol stmt entity_type param params ops op def v json
        e m n o q std in
    let same : found ≡ resolved = cc (at, at_type) in
    let same_ops : found_ops ≡ resolved_ops = cc (rw same at at', at_param) in
    let here : op_get op resolved_ops ≡ some u = rw (← same_ops) at_op in
    let (valid, combines) =
      resolve_metadata_policy-IsSound stmts [] pol json e entity_type resolved at_type param
        resolved_ops at_param in
    Satisfies-mono op u v (read param metadata') (valid op def u std here).0
      (json stmt m entity_type params n param ops o op v q) c refines
      (apply_param-Satisfies to_string entity_type param metadata resolved_ops metadata' op def u
        text applied std c (op_get-In op resolved_ops here))
