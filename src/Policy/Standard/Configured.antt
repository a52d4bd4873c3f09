-- ===== src/Policy/Standard/Configured.antt =====
-- A merge of two valid configurations of a standard operator is a valid configuration.
use oidfed.Common.{
  ◌≡◌, ◌≢◌, refl, true, inl, inr, none, some, List, all, arith, Bool-cases, all_at, all_intro,
  In-filter, if◌then◌else◌,
}
use oidfed.Json.{Json, deep_equal}
use oidfed.Policy.Arrays.{array_union, array_intersection}
use oidfed.Policy.Arrays.Laws.{member, array_union_from}
use oidfed.Policy.Operators.{
  OpName, value, add, default, one_of, subset_of, superset_of, essential, other, MergeResult,
  merged, PolicyOperatorDefinition, as_array, array, is_comparable_array, is_comparable_element,
  validate_standard_policy_operator_configuration,
}
use oidfed.Policy.Standard.{
  operators, value_operator, add_operator, default_operator, one_of_operator, subset_of_operator,
  superset_of_operator, essential_operator, value_merge, add_merge, default_merge, one_of_merge,
  subset_of_merge, superset_of_merge, essential_merge,
}
use oidfed.Policy.Standard.Refines.{
  elems-items, both_configured_inv, merged-injective, merged_unless_empty_inv,
}

abbrev pub IsConfigured : OpName → Json → Type 0
IsConfigured op v = validate_standard_policy_operator_configuration op v ≡ none

-- The four operators whose value is an array.
abbrev pub TakesArray : OpName → Type 0
TakesArray add = Unit
TakesArray one_of = Unit
TakesArray subset_of = Unit
TakesArray superset_of = Unit
TakesArray _ = ⊥

pub comparable_of_configured :
    (op : OpName) (v : Json) → TakesArray op → IsConfigured op v → is_comparable_array v ≡ true
unfolding validate_standard_policy_operator_configuration
comparable_of_configured add v t h = ground arith
comparable_of_configured one_of v t h = ground arith
comparable_of_configured subset_of v t h = ground arith
comparable_of_configured superset_of v t h = ground arith
comparable_of_configured _ v t h = absurd t

pub IsConfigured-of_comparable :
    (op : OpName) (v : Json) → TakesArray op → is_comparable_array v ≡ true → IsConfigured op v
unfolding validate_standard_policy_operator_configuration
IsConfigured-of_comparable add v t h = ground arith
IsConfigured-of_comparable one_of v t h = ground arith
IsConfigured-of_comparable subset_of v t h = ground arith
IsConfigured-of_comparable superset_of v t h = ground arith
IsConfigured-of_comparable _ v t h = absurd t

pub as_array-comparable :
    (v : Json) → is_comparable_array v ≡ true → all is_comparable_element (as_array v) ≡ true
as_array-comparable (Json.arr xs) h = h
as_array-comparable _ h = refl

pub array-comparable :
    (xs : List Json) → all is_comparable_element xs ≡ true → is_comparable_array (array xs) ≡ true
array-comparable xs h = rw elems-items h

pub union-comparable :
    (v w : Json)
    → is_comparable_array v ≡ true
    → is_comparable_array w ≡ true
    → is_comparable_array (array (array_union (as_array v) (as_array w))) ≡ true
union-comparable v w h k =
    let a = as_array v in
    let b = as_array w in
    array-comparable (array_union a b) (
      all_intro is_comparable_element (array_union a b) λ x m. elim (array_union_from x a b m) [
        | inl n ↦ all_at is_comparable_element x a (as_array-comparable v h) n
        | inr n ↦ all_at is_comparable_element x b (as_array-comparable w k) n
      ])

pub intersection-comparable :
    (v w : Json)
    → is_comparable_array v ≡ true
    → is_comparable_array (array (array_intersection (as_array v) (as_array w))) ≡ true
unfolding array_intersection
intersection-comparable v w h =
    let a = as_array v in
    let b = as_array w in
    array-comparable (array_intersection a b) (
      all_intro is_comparable_element (array_intersection a b) λ x m.
        all_at is_comparable_element x a (as_array-comparable v h)
          (In-filter (λ item. member item b) x a m).0)

kept_merged :
    (op : OpName) (v w u : Json) (e : MergeResult)
    → IsConfigured op v
    → e ≢ merged u
    → (if deep_equal v w then merged v else e) ≡ merged u
    → IsConfigured op u
kept_merged op v w u e p no_merge h = elim (Bool-cases (deep_equal v w)) [
  | inl same ↦ let kept : v ≡ u = merged-injective (rw same at h) in rw (← kept) p
  | inr differ ↦ absurd (no_merge (rw differ at h))
]

module _ (v w u : Json) where
  union-IsConfigured :
      (op : OpName)
      → TakesArray op
      → IsConfigured op v
      → IsConfigured op w
      → array (array_union (as_array v) (as_array w)) ≡ u
      → IsConfigured op u
  union-IsConfigured op t p q e = IsConfigured-of_comparable op u t (
      rw (← e) (
        union-comparable v w (comparable_of_configured op v t p)
          (comparable_of_configured op w t q)))

  intersection-IsConfigured :
      (op : OpName)
      → TakesArray op
      → IsConfigured op v
      → array (array_intersection (as_array v) (as_array w)) ≡ u
      → IsConfigured op u
  intersection-IsConfigured op t p e =
      IsConfigured-of_comparable op u t
        (rw (← e) (intersection-comparable v w (comparable_of_configured op v t p)))

  value-IsConfigured : value_merge v w ≡ merged u → IsConfigured value u
  unfolding value_merge
  value-IsConfigured h =
      let (p, q, k) = both_configured_inv value v w _ h in kept_merged value v w u _ p (λ e. cc) k

  default-IsConfigured : default_merge v w ≡ merged u → IsConfigured default u
  unfolding default_merge
  default-IsConfigured h =
      let (p, q, k) = both_configured_inv default v w _ h in
      kept_merged default v w u _ p (λ e. cc) k

  pub add-IsConfigured : add_merge v w ≡ merged u → IsConfigured add u
  unfolding add_merge
  add-IsConfigured h =
      let (p, q, k) = both_configured_inv add v w _ h in
      union-IsConfigured add tt p q (merged-injective k)

  pub superset_of-IsConfigured : superset_of_merge v w ≡ merged u → IsConfigured superset_of u
  unfolding superset_of_merge
  superset_of-IsConfigured h =
      let (p, q, k) = both_configured_inv superset_of v w _ h in
      union-IsConfigured superset_of tt p q (merged-injective k)

  pub subset_of-IsConfigured : subset_of_merge v w ≡ merged u → IsConfigured subset_of u
  unfolding subset_of_merge
  subset_of-IsConfigured h =
      let (p, q, k) = both_configured_inv subset_of v w _ h in
      intersection-IsConfigured subset_of tt p (merged-injective k)

  pub one_of-IsConfigured : one_of_merge v w ≡ merged u → IsConfigured one_of u
  unfolding one_of_merge
  one_of-IsConfigured h =
      let (p, q, k) = both_configured_inv one_of v w _ h in
      intersection-IsConfigured one_of tt p (merged_unless_empty_inv _ k)

  pub essential-IsConfigured : essential_merge v w ≡ merged u → IsConfigured essential u
  unfolding essential_merge validate_standard_policy_operator_configuration
  essential-IsConfigured h =
      let same = merged-injective (both_configured_inv essential v w _ h).2 in rw (← same)

-- What a standard operator merges is a valid configuration of it.
pub merge-IsConfigured :
    (op : OpName) (def : PolicyOperatorDefinition) (v w u : Json)
    → operators op ≡ some def
    → def.merge v w ≡ merged u
    → IsConfigured op u
merge-IsConfigured value def v w u known h =
    let same : value_operator ≡ def = cc in value-IsConfigured v w u (rw (← same) at h)
merge-IsConfigured add def v w u known h =
    let same : add_operator ≡ def = cc in add-IsConfigured v w u (rw (← same) at h)
merge-IsConfigured default def v w u known h =
    let same : default_operator ≡ def = cc in default-IsConfigured v w u (rw (← same) at h)
merge-IsConfigured one_of def v w u known h =
    let same : one_of_operator ≡ def = cc in one_of-IsConfigured v w u (rw (← same) at h)
merge-IsConfigured subset_of def v w u known h =
    let same : subset_of_operator ≡ def = cc in subset_of-IsConfigured v w u (rw (← same) at h)
merge-IsConfigured superset_of def v w u known h =
    let same : superset_of_operator ≡ def = cc in superset_of-IsConfigured v w u (rw (← same) at h)
merge-IsConfigured essential def v w u known h =
    let same : essential_operator ≡ def = cc in essential-IsConfigured v w u (rw (← same) at h)
merge-IsConfigured (other s) def v w u known h = cc
