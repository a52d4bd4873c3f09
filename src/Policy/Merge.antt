-- ===== src/Policy/Merge.antt =====
-- packages/core/src/metadata-policy/merge.ts: the metadata policies of a chain's subordinate
-- statements, merged from the trust anchor's side.
pub mod Entries
pub mod Operators
pub mod Pairs
pub mod Sound
pub mod Resolve
pub mod Critical
use mathlib.Core.List.{reverse}
use oidfed.Common.{
  is_inherited, Str, Dict, get, put, ◌≡◌, Bool, true, false, ◌&&◌, ◌||◌, not, Option, none, some,
  List, [], ◌∷◌, ◌++◌, any, if◌then◌else◌, Result, ok, err, ◌>>=◌,
}
use oidfed.Json.{Json}
use oidfed.Policy.Operators.{
  other, OpName, OpError, MergeResult, merged, unmerged, PolicyOperatorDefinition,
  validate_standard_policy_operator_configuration,
}
use oidfed.Policy.Names.{op_eq, OpMap, op_get, op_put}
use oidfed.Policy.Custom.{
  Lookup, CustomError, is_standard, validate_custom_operators, build_operator_lookup,
}

-- `ResolvedMetadataPolicy`: by entity type, parameter and operator.
abbrev pub Policy : Type 0
Policy = Dict (Dict (OpMap Json))

-- The two claims of a statement's payload that the merge reads.
pub record PolicyClaims : Type 0 where
  pub metadata_policy : Option Policy
  pub metadata_policy_crit : Option (List OpName)

-- One constructor for each error text; entity type, parameter and operators are what it shows.
pub data PolicyError : Type 0 where
  custom : CustomError → PolicyError
  standard_critical unknown_critical : OpName → PolicyError
  invalid_operator : Str → Str → OpName → OpError → PolicyError
  merge_failed : Str → Str → OpName → OpError → PolicyError
  incompatible : Str → Str → OpName → OpName → PolicyError

abbrev pub or_empty {ℓ} : {A : Type ℓ} → Option (List A) → List A
or_empty none = []
or_empty (some xs) = xs

-- `Set.add`
abbrev pub add_name : List OpName → OpName → List OpName
add_name names name = if any (op_eq name) names then names else names ++ name ∷ []

unfoldable pub add_names : List OpName → List OpName → List OpName
add_names names [] = names
add_names names (op ∷ ops) = add_names (add_name names op) ops

unfoldable pub critical_ops : List OpName → List PolicyClaims → List OpName
unfolding add_names
critical_ops names [] = names
critical_ops names (stmt ∷ stmts) =
    critical_ops (add_names names (or_empty stmt.metadata_policy_crit)) stmts

-- The loops over an object's entries: what is known under the entry's key, or `{}`, takes the
-- entry's value in.
unfoldable pub merge_entries :
    {A B : Type 0}
    → (Str → List A → B → Result PolicyError (List A))
    → Dict (List A)
    → Dict B
    → Result PolicyError (Dict (List A))
merge_entries f known [] = ok known
merge_entries f known ((k, b) ∷ entries) = do
  x ← f k (or_empty (get k known)) b
  merge_entries f (put k x known) entries

-- An operator whose name every object inherits.
abbrev pub is_inherited_name : OpName → Bool
is_inherited_name (other s) = is_inherited s
is_inherited_name _ = false

module _ (lookup : Lookup) where
  -- `lookup[critOp]` finds what the object inherits as well.
  unfoldable pub check_critical : List OpName → Result PolicyError (Unit {0})
  check_critical [] = ok tt
  check_critical (op ∷ ops) =
      let rest = check_critical ops in
      if is_standard op then err (standard_critical op) else elim (lookup op) [
        | none ↦ if is_inherited_name op then rest else err (unknown_critical op)
        | some def ↦ rest
      ]

  module _ (entity_type param : Str) where
    abbrev merged_value : OpName → MergeResult → Result PolicyError Json
    merged_value op (merged v) = ok v
    merged_value op (unmerged e) = err (merge_failed entity_type param op e)

    -- The body of the loop over the operators of one parameter.
    unfoldable pub merge_operator : OpMap Json → OpName → Json → Result PolicyError (OpMap Json)
    merge_operator known op v = elim (lookup op) [
      | none ↦ ok known
      | some def ↦ elim (validate_standard_policy_operator_configuration op v) [
        | some e ↦ err (invalid_operator entity_type param op e)
        | none ↦ elim (op_get op known) [
          | none ↦ ok (op_put op v known)
          | some w ↦ do x ← merged_value op (def.merge w v); ok (op_put op x known)
        ]
      ]
    ]

    unfoldable pub merge_operators : OpMap Json → OpMap Json → Result PolicyError (OpMap Json)
    merge_operators known [] = ok known
    merge_operators known ((op, v) ∷ ops) = do
      known' ← merge_operator known op v
      merge_operators known' ops

    -- `opNames`, with their definitions and values.
    unfoldable pub known_operators : OpMap Json → List (OpName × PolicyOperatorDefinition × Json)
    known_operators [] = []
    known_operators ((op, v) ∷ ops) =
        let rest = known_operators ops in
        elim (lookup op) [ none ↦ rest | some def ↦ (op, def, v) ∷ rest ]

    abbrev pub combinable :
        OpName × PolicyOperatorDefinition × Json → OpName × PolicyOperatorDefinition × Json → Bool
    combinable (a, def_a, v) (b, def_b, w) =
        def_a.can_combine_with b v w && def_b.can_combine_with a w v

    -- The inner loop: one operator against those behind it.
    unfoldable pub check_against :
        OpName × PolicyOperatorDefinition × Json
        → List (OpName × PolicyOperatorDefinition × Json)
        → Result PolicyError (Unit {0})
    check_against a [] = ok tt
    check_against a (b ∷ bs) =
        let rest = check_against a bs in
        if combinable a b then rest else err (incompatible entity_type param a.0 b.0)

    unfoldable pub check_pairs :
        List (OpName × PolicyOperatorDefinition × Json) → Result PolicyError (Unit {0})
    check_pairs [] = ok tt
    check_pairs (a ∷ rest) = check_against a rest >>= λ _. check_pairs rest

    -- One parameter of a statement, merged into what is known of it.
    unfoldable pub merge_param : OpMap Json → OpMap Json → Result PolicyError (OpMap Json)
    merge_param known ops = do
      known' ← merge_operators known ops
      _ ← check_pairs (known_operators known')
      ok known'

  unfoldable pub merge_params :
      Str → Dict (OpMap Json) → Dict (OpMap Json) → Result PolicyError (Dict (OpMap Json))
  merge_params entity_type = merge_entries (λ param. merge_param entity_type param)

  unfoldable pub merge_types : Policy → Policy → Result PolicyError Policy
  merge_types = merge_entries merge_params

  unfoldable pub merge_statements : Policy → List PolicyClaims → Result PolicyError Policy
  merge_statements known [] = ok known
  merge_statements known (stmt ∷ stmts) = do
    known' ← merge_types known (or_empty stmt.metadata_policy)
    merge_statements known' stmts

abbrev from_custom : Result CustomError (Unit {0}) → Result PolicyError (Unit {0})
from_custom (ok x) = ok x
from_custom (err e) = err (custom e)

-- Statements come in chain order, leaf first, and are merged in reverse.
unfoldable pub resolve_metadata_policy :
    List PolicyClaims → List PolicyOperatorDefinition → Result PolicyError Policy
resolve_metadata_policy stmts customs = do
  _ ← from_custom (validate_custom_operators customs)
  _ ← check_critical (build_operator_lookup customs) (critical_ops [] stmts)
  merge_statements (build_operator_lookup customs) [] (reverse stmts)
