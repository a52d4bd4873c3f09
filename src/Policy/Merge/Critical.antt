-- ===== src/Policy/Merge/Critical.antt =====
-- The check of `metadata_policy_crit` in packages/core/src/metadata-policy/merge.ts.
use oidfed.Common.{
  ◌≡◌, true, refl, false, some, List, [], ◌∷◌, In, inl, inr, ◌⊎◌, any, any-witness, arith,
  Bool-cases, Option-cases, append_left, append_right, ok,
}
use oidfed.Policy.Operators.{OpName, PolicyOperatorDefinition}
use oidfed.Policy.Names.{op_eq, op_eq_iff}
use oidfed.Policy.Custom.{Lookup, is_standard, build_operator_lookup}
use oidfed.Policy.Merge.{
  Policy, PolicyClaims, or_empty, add_name, add_names, critical_ops, check_critical,
  is_inherited_name, resolve_metadata_policy,
}
use oidfed.Policy.Merge.Resolve.{resolve_inv}

add_name_new : (names : List OpName) (op : OpName) → In op (add_name names op)
add_name_new names op = elim (Bool-cases (any (op_eq op) names)) [
  | inl there ↦
      let (o, m, same) = any-witness (op_eq op) names there in
      let key : op ≡ o = (op_eq_iff op o).0 same in rw there (rw key m)
  | inr new ↦ rw new (append_right op names (op ∷ []) (inl refl))
]

add_name_old : (names : List OpName) (op o : OpName) → In o names → In o (add_name names op)
add_name_old names op o m = elim (Bool-cases (any (op_eq op) names)) [
  | inl there ↦ rw there m
  | inr new ↦ rw new (append_left o names (op ∷ []) m)
]

add_names_old : (names ops : List OpName) (o : OpName) → In o names → In o (add_names names ops)
unfolding add_names
add_names_old names [] o m = m
add_names_old names (op ∷ ops) o m =
    add_names_old (add_name names op) ops o (add_name_old names op o m)

add_names_new : (names ops : List OpName) (o : OpName) → In o ops → In o (add_names names ops)
unfolding add_names
add_names_new names [] o m = absurd m
add_names_new names (op ∷ ops) o (inl e) =
    add_names_old (add_name names op) ops o (rw e (add_name_new names op))
add_names_new names (op ∷ ops) o (inr m) = add_names_new (add_name names op) ops o m

critical_ops_old :
    (names : List OpName) (stmts : List PolicyClaims) (o : OpName)
    → In o names
    → In o (critical_ops names stmts)
unfolding critical_ops
critical_ops_old names [] o m = m
critical_ops_old names (stmt ∷ stmts) o m =
    critical_ops_old (add_names names (or_empty stmt.metadata_policy_crit)) stmts o
      (add_names_old names (or_empty stmt.metadata_policy_crit) o m)

critical_ops_new :
    (names : List OpName) (stmts : List PolicyClaims) (stmt : PolicyClaims) (o : OpName)
    → In stmt stmts
    → In o (or_empty stmt.metadata_policy_crit)
    → In o (critical_ops names stmts)
unfolding critical_ops
critical_ops_new names [] stmt o m n = absurd m
critical_ops_new names (s ∷ stmts) stmt o (inl e) n =
    critical_ops_old (add_names names (or_empty s.metadata_policy_crit)) stmts o
      (add_names_new names (or_empty s.metadata_policy_crit) o (rw e at n))
critical_ops_new names (s ∷ stmts) stmt o (inr m) n =
    critical_ops_new (add_names names (or_empty s.metadata_policy_crit)) stmts stmt o m n

-- An operator has a definition, or a name that every object inherits.
abbrev pub IsKnown : Lookup → OpName → Type 0
IsKnown lookup op =
    ((def : PolicyOperatorDefinition) × (lookup op ≡ some def)) ⊎ (is_inherited_name op ≡ true)

check_critical_at :
    (lookup : Lookup) (ops : List OpName) (op : OpName)
    → check_critical lookup ops ≡ ok tt
    → In op ops
    → (is_standard op ≡ false) × IsKnown lookup op
unfolding check_critical
check_critical_at lookup [] op h m = absurd m
check_critical_at lookup (o ∷ ops) op h (inl e) = rw e (elim (Option-cases (lookup o)) [
  | inl missing ↦ (ground arith, inr (ground (arith, missing)))
  | inr (def, found) ↦ (ground arith, inl (def, found))
])
check_critical_at lookup (o ∷ ops) op h (inr m) = check_critical_at lookup ops op (ground arith) m

-- If the policies of a chain's statements resolve, every operator that some statement lists in
-- `metadata_policy_crit` is no standard operator, and it has a definition or bears a name that every
-- object inherits (which the lookup in an object literal finds too).
pub resolve_metadata_policy_critical :
    (stmts : List PolicyClaims) (customs : List PolicyOperatorDefinition) (pol : Policy)
    (stmt : PolicyClaims) (op : OpName)
    → resolve_metadata_policy stmts customs ≡ ok pol
    → In stmt stmts
    → In op (or_empty stmt.metadata_policy_crit)
    → (is_standard op ≡ false) × IsKnown (build_operator_lookup customs) op
resolve_metadata_policy_critical stmts customs pol stmt op e m n =
    check_critical_at (build_operator_lookup customs) (critical_ops [] stmts) op
      (resolve_inv stmts customs pol e).1 (critical_ops_new [] stmts stmt op m n)
