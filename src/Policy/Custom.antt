-- ===== src/Policy/Custom.antt =====
-- packages/core/src/metadata-policy/custom-operators.ts. An order is a natural number; the negative
-- and the fractional ones that `number` allows are left out.
pub mod Laws
use oidfed.Common.{
  ℕ, ◌≡◌, Bool, true, false, ◌&&◌, ◌||◌, Option, none, some, List, [], ◌∷◌, any, leb, if◌then◌else◌,
  Result, ok, err,
}
use oidfed.Policy.Operators.{OpName, other, Action, check, modify, both, PolicyOperatorDefinition}
use oidfed.Policy.Standard.{operators}
use oidfed.Policy.Names.{op_eq}

abbrev pub Lookup : Type 0
Lookup = OpName → Option PolicyOperatorDefinition

-- `merged[op.name] = op` for each custom operator.
unfoldable pub lookup_with : Lookup → List PolicyOperatorDefinition → Lookup
lookup_with merged [] = merged
lookup_with merged (op ∷ ops) =
    lookup_with (λ name. if op_eq op.name name then some op else merged name) ops

unfoldable pub build_operator_lookup : List PolicyOperatorDefinition → Lookup
unfolding lookup_with
build_operator_lookup custom = lookup_with operators custom

abbrev pub is_standard : OpName → Bool
is_standard (other s) = false
is_standard _ = true

pub data CustomError : Type 0 where
  conflicts_with_standard duplicate_name : OpName → CustomError
  modify_order check_order both_order : OpName → CustomError

-- The tests on `action` and `order`.
unfoldable pub order_error : PolicyOperatorDefinition → Option CustomError
order_error op = elim op.action [
  | modify ↦ if leb op.order 1 then some (modify_order op.name) else none
  | check ↦ if leb 7 op.order then some (check_order op.name) else none
  | both ↦ if leb op.order 1 || leb 7 op.order then some (both_order op.name) else none
]

-- The loop, with the names that were seen.
validate_from : List OpName → List PolicyOperatorDefinition → Result CustomError (Unit {0})
validate_from seen [] = ok tt
validate_from seen (op ∷ ops) =
    let rest = validate_from (op.name ∷ seen) ops in
    if is_standard op.name
    then err (conflicts_with_standard op.name)
    else if any (op_eq op.name) seen
    then err (duplicate_name op.name)
    else elim (order_error op) [ some e ↦ err e | none ↦ rest ]

unfoldable pub validate_custom_operators :
    List PolicyOperatorDefinition → Result CustomError (Unit {0})
unfolding validate_from order_error
validate_custom_operators ops = validate_from [] ops
