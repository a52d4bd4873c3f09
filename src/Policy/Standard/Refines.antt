-- ===== src/Policy/Standard/Refines.antt =====
-- What merging two values of one operator keeps: the merged value restricts at least as much as
-- each of them.
use oidfed.Common.{
  ◌≡◌, ◌≢◌, inl, inr, refl, sym, ◌∙◌, true, none, some, List, [], ◌∷◌, All, arith, Bool-cases,
  and_true, if◌then◌else◌,
}
use oidfed.Json.{Json, arr, Items, nil, cons, elems, items, deep_equal, IsJson, AreItems}
use oidfed.Json.Equality.{deep_equal_refl, deep_equal_trans}
use oidfed.Policy.Arrays.{is_subset, array_union, array_intersection}
use oidfed.Policy.Arrays.Laws.{
  is_subset_refl, is_subset_trans, is_subset-array_union, is_subset-array_intersection,
  array_union-IsJson, array_intersection-IsJson,
}
use oidfed.Policy.Operators.{
  OpName, value, add, default, one_of, subset_of, superset_of, essential, other, MergeResult,
  merged, PolicyOperatorDefinition, as_array, as_boolean, array, both_configured,
  validate_standard_policy_operator_configuration,
}
use oidfed.Policy.Standard.{
  operators, value_operator, add_operator, default_operator, one_of_operator, subset_of_operator,
  superset_of_operator, essential_operator, value_merge, add_merge, default_merge, one_of_merge,
  subset_of_merge, superset_of_merge, essential_merge, merged_unless_empty,
}

-- `u` restricts at least as much as `v`, as values of the operator. An `add` adds all that the
-- other adds; a `value` and a `default` are the other's; a set of allowed values is smaller, and
-- one of required values larger; what was essential stays so.
abbrev pub Refines : OpName → Json → Json → Type 0
Refines value u v = deep_equal u v ≡ true
Refines default u v = deep_equal u v ≡ true
Refines add u v = is_subset (as_array v) (as_array u) ≡ true
Refines one_of u v = is_subset (as_array u) (as_array v) ≡ true
Refines subset_of u v = is_subset (as_array u) (as_array v) ≡ true
Refines superset_of u v = is_subset (as_array v) (as_array u) ≡ true
Refines essential u v = as_boolean v ≡ true → as_boolean u ≡ true
Refines (other s) u v = Unit

pub elems-items : (xs : List Json) → elems (items xs) ≡ xs
unfolding elems items
elems-items [] = refl
elems-items (x ∷ xs) = rw (elems-items xs)

AreItems-elems : (xs : Items) → AreItems xs → All IsJson (elems xs)
unfolding IsJson elems
AreItems-elems nil h = tt
AreItems-elems (cons x xs) (p, h) = (p, AreItems-elems xs h)

AreItems-items : (xs : List Json) → All IsJson xs → AreItems (items xs)
unfolding IsJson items
AreItems-items [] h = tt
AreItems-items (x ∷ xs) (p, h) = (p, AreItems-items xs h)

pub array-IsJson : (xs : List Json) → All IsJson xs → IsJson (array xs)
unfolding IsJson
array-IsJson xs h = AreItems-items xs h

pub as_array-IsJson : (v : Json) → IsJson v → All IsJson (as_array v)
unfolding IsJson
as_array-IsJson (arr xs) h = AreItems-elems xs h
as_array-IsJson _ h = tt

pub Refines-refl : (op : OpName) (v : Json) → IsJson v → Refines op v v
Refines-refl value v h = deep_equal_refl v h
Refines-refl default v h = deep_equal_refl v h
Refines-refl add v h = is_subset_refl (as_array v) (as_array-IsJson v h)
Refines-refl one_of v h = is_subset_refl (as_array v) (as_array-IsJson v h)
Refines-refl subset_of v h = is_subset_refl (as_array v) (as_array-IsJson v h)
Refines-refl superset_of v h = is_subset_refl (as_array v) (as_array-IsJson v h)
Refines-refl essential v h = λ e. e
Refines-refl (other s) v h = tt

pub Refines-trans : (op : OpName) (u v w : Json) → Refines op u v → Refines op v w → Refines op u w
Refines-trans value u v w h k = deep_equal_trans u v w h k
Refines-trans default u v w h k = deep_equal_trans u v w h k
Refines-trans add u v w h k = is_subset_trans (as_array w) (as_array v) (as_array u) k h
Refines-trans one_of u v w h k = is_subset_trans (as_array u) (as_array v) (as_array w) h k
Refines-trans subset_of u v w h k = is_subset_trans (as_array u) (as_array v) (as_array w) h k
Refines-trans superset_of u v w h k = is_subset_trans (as_array w) (as_array v) (as_array u) k h
Refines-trans essential u v w h k = λ e. h (k e)
Refines-trans (other s) u v w h k = tt

-- What a merge gives of its two values.
abbrev pub MergedFrom : OpName → Json → Json → Json → Type 0
MergedFrom op v w u = IsJson u × Refines op u v × Refines op u w

pub both_configured_inv :
    (op : OpName) (v w : Json) (k : MergeResult) {u : Json}
    → both_configured op v w k ≡ merged u
    → (validate_standard_policy_operator_configuration op v ≡ none)
      × (validate_standard_policy_operator_configuration op w ≡ none)
      × (k ≡ merged u)
both_configured_inv op v w k h = ground arith

union_merged :
    (v w u : Json)
    → IsJson v
    → IsJson w
    → array (array_union (as_array v) (as_array w)) ≡ u
    → IsJson u
      × (is_subset (as_array v) (as_array u) ≡ true)
      × (is_subset (as_array w) (as_array u) ≡ true)
union_merged v w u p q e =
    let a = as_array v in
    let b = as_array w in
    let ha = as_array-IsJson v p in
    let hb = as_array-IsJson w q in
    let whole = array_union-IsJson a b ha hb in
    let (left, right) = and_true (
      sym (is_subset-array_union a b (array_union a b) ha hb)
      ∙ is_subset_refl (array_union a b) whole) in
    rw (← e, elems-items) (array-IsJson (array_union a b) whole, left, right)

intersection_merged :
    (v w u : Json)
    → IsJson v
    → IsJson w
    → array (array_intersection (as_array v) (as_array w)) ≡ u
    → IsJson u
      × (is_subset (as_array u) (as_array v) ≡ true)
      × (is_subset (as_array u) (as_array w) ≡ true)
intersection_merged v w u p q e =
    let a = as_array v in
    let b = as_array w in
    let ha = as_array-IsJson v p in
    let common = array_intersection-IsJson a b ha in
    let (left, right) = and_true (
      sym (is_subset-array_intersection (array_intersection a b) a b common ha)
      ∙ is_subset_refl (array_intersection a b) common) in
    rw (← e, elems-items) (array-IsJson (array_intersection a b) common, left, right)

pub merged-injective : {u v : Json} → ◌≡◌ {A = MergeResult} (merged u) (merged v) → u ≡ v
merged-injective e = cc

pub merged_unless_empty_inv :
    (xs : List Json) {u : Json} → merged_unless_empty xs ≡ merged u → array xs ≡ u
merged_unless_empty_inv [] h = cc
merged_unless_empty_inv (x ∷ xs) h = merged-injective h

-- The merge of `value` and of `default`: equal values, and the first is kept.
equal_merged :
    (v w u : Json) (e : MergeResult)
    → IsJson v
    → e ≢ merged u
    → (if deep_equal v w then merged v else e) ≡ merged u
    → IsJson u × (deep_equal u v ≡ true) × (deep_equal u w ≡ true)
equal_merged v w u e p other_wise h = elim (Bool-cases (deep_equal v w)) [
  | inl same ↦
      let kept : v ≡ u = merged-injective (rw same at h) in
      rw (← kept) (p, deep_equal_refl v p, same)
  | inr differ ↦ absurd (other_wise (rw differ at h))
]

module _ (v w u : Json) (p : IsJson v) (q : IsJson w) where
  value_merged : value_merge v w ≡ merged u → MergedFrom value v w u
  unfolding value_merge
  value_merged h = equal_merged v w u _ p (λ e. cc) (both_configured_inv value v w _ h).2

  default_merged : default_merge v w ≡ merged u → MergedFrom default v w u
  unfolding default_merge
  default_merged h = equal_merged v w u _ p (λ e. cc) (both_configured_inv default v w _ h).2

  add_merged : add_merge v w ≡ merged u → MergedFrom add v w u
  unfolding add_merge
  add_merged h = union_merged v w u p q (merged-injective (both_configured_inv add v w _ h).2)

  superset_of_merged : superset_of_merge v w ≡ merged u → MergedFrom superset_of v w u
  unfolding superset_of_merge
  superset_of_merged h =
      union_merged v w u p q (merged-injective (both_configured_inv superset_of v w _ h).2)

  subset_of_merged : subset_of_merge v w ≡ merged u → MergedFrom subset_of v w u
  unfolding subset_of_merge
  subset_of_merged h =
      intersection_merged v w u p q (merged-injective (both_configured_inv subset_of v w _ h).2)

  one_of_merged : one_of_merge v w ≡ merged u → MergedFrom one_of v w u
  unfolding one_of_merge
  one_of_merged h =
      intersection_merged v w u p q
        (merged_unless_empty_inv _ (both_configured_inv one_of v w _ h).2)

  essential_merged : essential_merge v w ≡ merged u → MergedFrom essential v w u
  unfolding essential_merge
  essential_merged h =
      let same = merged-injective (both_configured_inv essential v w _ h).2 in
      rw (← same) (unfold IsJson in tt, (λ e. rw e refl), (λ e. ground (arith, e)))

-- A value that a standard operator merges from two JSON values is a JSON value that restricts at
-- least as much as each of the two.
pub merge-Refines :
    (op : OpName) (def : PolicyOperatorDefinition) (v w u : Json)
    → operators op ≡ some def
    → IsJson v
    → IsJson w
    → def.merge v w ≡ merged u
    → IsJson u × Refines op u v × Refines op u w
merge-Refines value def v w u known p q h =
    let same : value_operator ≡ def = cc in value_merged v w u p q (rw (← same) at h)
merge-Refines add def v w u known p q h =
    let same : add_operator ≡ def = cc in add_merged v w u p q (rw (← same) at h)
merge-Refines default def v w u known p q h =
    let same : default_operator ≡ def = cc in default_merged v w u p q (rw (← same) at h)
merge-Refines one_of def v w u known p q h =
    let same : one_of_operator ≡ def = cc in one_of_merged v w u p q (rw (← same) at h)
merge-Refines subset_of def v w u known p q h =
    let same : subset_of_operator ≡ def = cc in subset_of_merged v w u p q (rw (← same) at h)
merge-Refines superset_of def v w u known p q h =
    let same : superset_of_operator ≡ def = cc in superset_of_merged v w u p q (rw (← same) at h)
merge-Refines essential def v w u known p q h =
    let same : essential_operator ≡ def = cc in essential_merged v w u p q (rw (← same) at h)
merge-Refines (other s) def v w u known p q h = cc
