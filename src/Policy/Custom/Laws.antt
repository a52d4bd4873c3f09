-- ===== src/Policy/Custom/Laws.antt =====
-- What a validated set of custom operators gives.
use oidfed.Common.{
  ◌≡◌, refl, ap, ◌∙◌, true, false, inl, inr, none, some, List, [], ◌∷◌, In, any, arith, Bool-cases,
  if◌then◌else◌, ok, ◌<◌,
}
use oidfed.Policy.Operators.{OpName, check, modify, both, PolicyOperatorDefinition}
use oidfed.Policy.Standard.{operators}
use oidfed.Policy.Names.{op_eq, op_eq_iff, op_eq_refl}
use oidfed.Policy.Custom.{
  Lookup, lookup_with, build_operator_lookup, is_standard, order_error, validate_from,
  validate_custom_operators,
}

-- The place that an operator takes among the standard ones: after `value`, before `essential`.
abbrev pub InOrder : PolicyOperatorDefinition → Type 0
InOrder op =
    (op.action ≡ modify → 1 < op.order)
    × (op.action ≡ check → op.order < 7)
    × (op.action ≡ both → (1 < op.order) × (op.order < 7))

order_error-InOrder : (op : PolicyOperatorDefinition) → order_error op ≡ none → InOrder op
unfolding order_error
order_error-InOrder op h = (λ e. ground arith, λ e. ground arith, λ e. (ground arith, ground arith))

-- Every operator is new, has an order that suits its action, and differs from those behind it.
abbrev pub AreFresh : List PolicyOperatorDefinition → Type 0
AreFresh [] = Unit
AreFresh (op ∷ ops) =
    (is_standard op.name ≡ false)
    × InOrder op
    × ((o : PolicyOperatorDefinition) → In o ops → op_eq op.name o.name ≡ false)
    × AreFresh ops

validate_from_cases :
    (seen : List OpName) (op : PolicyOperatorDefinition) (ops : List PolicyOperatorDefinition)
    → validate_from seen (op ∷ ops) ≡ ok tt
    → (is_standard op.name ≡ false)
      × (any (op_eq op.name) seen ≡ false)
      × (order_error op ≡ none)
      × (validate_from (op.name ∷ seen) ops ≡ ok tt)
unfolding validate_from
validate_from_cases seen op ops h = ground arith

validate_from-unseen :
    (seen : List OpName) (ops : List PolicyOperatorDefinition) (o : PolicyOperatorDefinition)
    → validate_from seen ops ≡ ok tt
    → In o ops
    → any (op_eq o.name) seen ≡ false
validate_from-unseen seen [] o h m = absurd m
validate_from-unseen seen (op ∷ ops) o h (inl e) = rw e (validate_from_cases seen op ops h).1
validate_from-unseen seen (op ∷ ops) o h (inr m) =
    let (std, new, order, rest) = validate_from_cases seen op ops h in
    let unseen = validate_from-unseen (op.name ∷ seen) ops o rest m in ground arith

validate_from-AreFresh :
    (seen : List OpName) (ops : List PolicyOperatorDefinition)
    → validate_from seen ops ≡ ok tt
    → AreFresh ops
validate_from-AreFresh seen [] h = tt
validate_from-AreFresh seen (op ∷ ops) h =
    let (std, new, order, rest) = validate_from_cases seen op ops h in
    (
      std,
      order_error-InOrder op order,
      (λ o m.
          let unseen = validate_from-unseen (op.name ∷ seen) ops o rest m in
          ground (arith, op_eq_iff o.name op.name, op_eq_iff op.name o.name)),
      validate_from-AreFresh (op.name ∷ seen) ops rest,
    )

-- A set of custom operators that passes validation holds no standard name and no name twice, and
-- each operator's order suits its action: a modifying one comes after `value`, a checking one
-- before `essential`, and one that does both is between them.
pub validate_custom_operators-AreFresh :
    (ops : List PolicyOperatorDefinition) → validate_custom_operators ops ≡ ok tt → AreFresh ops
unfolding validate_custom_operators
validate_custom_operators-AreFresh ops h = validate_from-AreFresh [] ops h

lookup_with-old :
    (table : Lookup) (ops : List PolicyOperatorDefinition) (name : OpName)
    → ((o : PolicyOperatorDefinition) → In o ops → op_eq o.name name ≡ false)
    → lookup_with table ops name ≡ table name
unfolding lookup_with
lookup_with-old table [] name h = refl
lookup_with-old table (op ∷ ops) name h =
    lookup_with-old (λ n. if op_eq op.name n then some op else table n) ops name
      (λ o m. h o (inr m))
    ∙ rw (h op (inl refl))

AreFresh-standard :
    (ops : List PolicyOperatorDefinition) (name : OpName)
    → AreFresh ops
    → is_standard name ≡ true
    → (o : PolicyOperatorDefinition) → In o ops
    → op_eq o.name name ≡ false
AreFresh-standard [] name h std o m = absurd m
AreFresh-standard (op ∷ ops) name (new, order, apart, rest) std o (inl e) =
    elim (Bool-cases (op_eq o.name name)) [
      | inr differ ↦ differ
      | inl same ↦
          let key : o.name ≡ name = (op_eq_iff o.name name).0 same in
          let clash : is_standard o.name ≡ false = rw e new in
          absurd (cc (clash, ap is_standard key))
    ]
AreFresh-standard (op ∷ ops) name (new, order, apart, rest) std o (inr m) =
    AreFresh-standard ops name rest std o m

-- After validation a standard name still has its standard operator.
pub build_operator_lookup-standard :
    (ops : List PolicyOperatorDefinition) (name : OpName)
    → validate_custom_operators ops ≡ ok tt
    → is_standard name ≡ true
    → build_operator_lookup ops name ≡ operators name
unfolding build_operator_lookup
build_operator_lookup-standard ops name h std =
    lookup_with-old operators ops name
      (AreFresh-standard ops name (validate_custom_operators-AreFresh ops h) std)

lookup_with-new :
    (table : Lookup) (ops : List PolicyOperatorDefinition) (op : PolicyOperatorDefinition)
    → AreFresh ops
    → In op ops
    → lookup_with table ops op.name ≡ some op
unfolding lookup_with
lookup_with-new table [] op h m = absurd m
lookup_with-new table (o ∷ ops) op (std, order, apart, h) (inl e) = rw e (
    lookup_with-old (λ n. if op_eq o.name n then some o else table n) ops o.name
      (λ q m. ground (arith, apart q m, op_eq_iff o.name q.name, op_eq_iff q.name o.name))
    ∙ rw (op_eq_refl o.name) refl)
lookup_with-new table (o ∷ ops) op (std, order, apart, h) (inr m) =
    lookup_with-new (λ n. if op_eq o.name n then some o else table n) ops op h m

-- After validation each custom operator is found under its name.
pub build_operator_lookup-custom :
    (ops : List PolicyOperatorDefinition) (op : PolicyOperatorDefinition)
    → validate_custom_operators ops ≡ ok tt
    → In op ops
    → build_operator_lookup ops op.name ≡ some op
unfolding build_operator_lookup
build_operator_lookup-custom ops op h m =
    lookup_with-new operators ops op (validate_custom_operators-AreFresh ops h) m
