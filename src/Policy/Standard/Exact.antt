-- ===== src/Policy/Standard/Exact.antt =====
-- Applying a merged operator is applying the two that it was merged from.
use oidfed.Common.{◌≡◌, refl, Bool, true, false, ◌&&◌, ◌||◌, none, some, arith}
use oidfed.Json.{Json, IsJson}
use oidfed.Policy.Arrays.{contains_element, is_subset, array_union, array_intersection}
use oidfed.Policy.Arrays.Laws.{
  contains_element-eq-member, member-array_intersection, is_subset-array_union,
  array_intersection_assoc, array_union_assoc, array_intersection-IsJson,
}
use oidfed.Policy.Operators.{
  add, one_of, subset_of, superset_of, essential, Value, OpResult, keep, removed, failed, merged,
  as_array, as_boolean, array,
}
use oidfed.Policy.Standard.{
  one_of_apply, superset_of_apply, subset_of_apply, add_apply, essential_apply, one_of_merge,
  superset_of_merge, subset_of_merge, add_merge, essential_merge,
}
use oidfed.Policy.Standard.Refines.{
  elems-items, both_configured_inv, merged-injective, merged_unless_empty_inv, as_array-IsJson,
}
use oidfed.Policy.Standard.Configured.{
  comparable_of_configured, union-comparable, intersection-comparable, one_of-IsConfigured,
  superset_of-IsConfigured, subset_of-IsConfigured, add-IsConfigured, essential-IsConfigured,
}

abbrev pub accepted : OpResult → Bool
accepted (failed e) = false
accepted _ = true

abbrev pub IsJsonValue : Value → Type 0
IsJsonValue none = Unit
IsJsonValue (some p) = IsJson p

-- A parameter after one operator goes into the next, as in the loop of `applyMetadataPolicy`.
abbrev pub and_then : OpResult → (Value → OpResult) → OpResult
and_then (keep x) f = f x
and_then removed f = f none
and_then (failed e) f = failed e

contains_merged :
    (v w u p : Json)
    → IsJson v
    → IsJson w
    → IsJson p
    → array (array_intersection (as_array v) (as_array w)) ≡ u
    → contains_element (as_array u) p
      ≡ (contains_element (as_array v) p && contains_element (as_array w) p)
contains_merged v w u p hv hw hp e =
    let a = as_array v in
    let b = as_array w in
    let ha = as_array-IsJson v hv in
    rw
      (
        ← e,
        elems-items,
        contains_element-eq-member (array_intersection a b) p (array_intersection-IsJson a b ha) hp,
        contains_element-eq-member a p ha hp,
        contains_element-eq-member b p (as_array-IsJson w hw) hp,
      )
      (member-array_intersection p a b hp ha)

-- A metadata value passes a merged `one_of` exactly if it passes both that were merged.
pub one_of_merge_exact :
    (v w u : Json) (x : Value)
    → IsJson v
    → IsJson w
    → IsJsonValue x
    → one_of_merge v w ≡ merged u
    → accepted (one_of_apply x u) ≡ (accepted (one_of_apply x v) && accepted (one_of_apply x w))
unfolding one_of_apply one_of_merge
one_of_merge_exact v w u none hv hw hx h =
    let (p, q, k) = both_configured_inv one_of v w _ h in
    ground (arith, p, q, one_of-IsConfigured v w u h)
one_of_merge_exact v w u (some x) hv hw hx h =
    let (p, q, k) = both_configured_inv one_of v w _ h in
    ground (
      arith,
      p,
      q,
      one_of-IsConfigured v w u h,
      contains_merged v w u x hv hw hx (merged_unless_empty_inv _ k),
    )

-- A metadata value passes a merged `superset_of` exactly if it passes both that were merged.
pub superset_of_merge_exact :
    (v w u : Json) (x : Value)
    → IsJson v
    → IsJson w
    → superset_of_merge v w ≡ merged u
    → accepted (superset_of_apply x u)
      ≡ (accepted (superset_of_apply x v) && accepted (superset_of_apply x w))
unfolding superset_of_apply superset_of_merge
superset_of_merge_exact v w u none hv hw h =
    let (p, q, k) = both_configured_inv superset_of v w _ h in
    ground (arith, p, q, superset_of-IsConfigured v w u h)
superset_of_merge_exact v w u (some x) hv hw h =
    let (p, q, k) = both_configured_inv superset_of v w _ h in
    let subset : is_subset (as_array u) (as_array x)
        ≡ (is_subset (as_array v) (as_array x) && is_subset (as_array w) (as_array x)) =
      rw (← merged-injective k, elems-items)
        (is_subset-array_union (as_array v) (as_array w) (as_array x) (as_array-IsJson v hv)
          (as_array-IsJson w hw)) in
    ground (arith, p, q, superset_of-IsConfigured v w u h, subset)

-- A metadata value passes a merged `essential` exactly if it passes both that were merged.
pub essential_merge_exact :
    (v w u : Json) (x : Value)
    → essential_merge v w ≡ merged u
    → accepted (essential_apply x u)
      ≡ (accepted (essential_apply x v) && accepted (essential_apply x w))
unfolding essential_apply essential_merge
essential_merge_exact v w u none h =
    let (p, q, k) = both_configured_inv essential v w _ h in
    let either : as_boolean u ≡ (as_boolean v || as_boolean w) = rw (← merged-injective k) refl in
    ground (arith, p, q, essential-IsConfigured v w u h, either)
essential_merge_exact v w u (some x) h =
    let (p, q, k) = both_configured_inv essential v w _ h in
    ground (arith, p, q, essential-IsConfigured v w u h)

-- Applying a merged `subset_of` gives the result, or the error, of applying the two that were
-- merged after one another.
pub subset_of_merge_exact :
    (v w u : Json) (x : Value)
    → IsJson v
    → IsJsonValue x
    → subset_of_merge v w ≡ merged u
    → subset_of_apply x u ≡ and_then (subset_of_apply x v) (λ y. subset_of_apply y w)
unfolding subset_of_apply subset_of_merge
subset_of_merge_exact v w u none hv hx h =
    let (p, q, k) = both_configured_inv subset_of v w _ h in
    ground (arith, p, q, subset_of-IsConfigured v w u h)
subset_of_merge_exact v w u (some x) hv hx h =
    let (p, q, k) = both_configured_inv subset_of v w _ h in
    let a = as_array v in
    let twice : array_intersection (as_array x) (as_array u)
        ≡ array_intersection (as_array (array (array_intersection (as_array x) a))) (as_array w) =
      rw (← merged-injective k, elems-items, elems-items)
        (array_intersection_assoc (as_array x) a (as_array w) (as_array-IsJson x hx)
          (as_array-IsJson v hv)) in
    ground (arith, p, q, subset_of-IsConfigured v w u h, twice, intersection-comparable x v)

-- Applying a merged `add` gives the result, or the error, of applying the two that were merged
-- after one another.
pub add_merge_exact :
    (v w u : Json) (x : Value)
    → IsJson v
    → IsJson w
    → IsJsonValue x
    → add_merge v w ≡ merged u
    → add_apply x u ≡ and_then (add_apply x v) (λ y. add_apply y w)
unfolding add_apply add_merge
add_merge_exact v w u none hv hw hx h =
    let (p, q, k) = both_configured_inv add v w _ h in
    ground (
      arith,
      p,
      q,
      add-IsConfigured v w u h,
      comparable_of_configured add v tt p,
      merged-injective k,
    )
add_merge_exact v w u (some x) hv hw hx h =
    let (p, q, k) = both_configured_inv add v w _ h in
    let a = as_array v in
    let twice : array_union (as_array x) (as_array u)
        ≡ array_union (as_array (array (array_union (as_array x) a))) (as_array w) =
      rw (← merged-injective k, elems-items, elems-items)
        (array_union_assoc (as_array x) a (as_array w) (as_array-IsJson x hx) (as_array-IsJson v hv)
          (as_array-IsJson w hw)) in
    ground (
      arith,
      p,
      q,
      add-IsConfigured v w u h,
      twice,
      comparable_of_configured add v tt p,
      union-comparable x v,
    )
