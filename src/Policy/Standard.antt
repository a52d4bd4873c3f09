-- ===== src/Policy/Standard.antt =====
-- The seven standard operators of packages/core/src/metadata-policy/operators.ts.
pub mod Refines
pub mod Configured
pub mod Exact
use oidfed.Common.{
  ◌≡◌, Bool, true, false, not, ◌&&◌, ◌||◌, Option, none, some, List, [], ◌∷◌, if◌then◌else◌,
}
use oidfed.Json.{Json, bool, items, arr, deep_equal}
use oidfed.Policy.Arrays.{contains_element, is_subset, array_union, array_intersection}
use oidfed.Policy.Operators.{
  OpName, value, add, default, one_of, subset_of, superset_of, essential, other, check, modify,
  both, Value, conflicting, empty_intersection, not_in_one_of, missing_required, missing_essential,
  OpResult, keep, removed, failed, MergeResult, merged, unmerged, PolicyOperatorDefinition, is_null,
  array, is_value_or_default_metadata_value, is_comparable_array, is_one_of_metadata_value,
  as_array, as_boolean, check_value_combination, never_allowed, configured, both_configured,
  unsupported,
}

-- value

unfoldable pub value_apply : Value → Json → OpResult
value_apply none v = configured value v (if is_null v then removed else keep (some v))
value_apply (some p) v = configured value v (
    if not (is_value_or_default_metadata_value p)
    then unsupported value "a string, number, boolean, or array" p
    else if is_null v
    then removed
    else keep (some v))

unfoldable pub value_merge : Json → Json → MergeResult
value_merge v w =
    both_configured value v w (if deep_equal v w then merged v else unmerged (conflicting value))

unfoldable pub value_can_combine_with : OpName → Json → Json → Bool
value_can_combine_with value v w = false
value_can_combine_with o v w =
    if never_allowed value o then false else check_value_combination o v w

abbrev pub value_operator : PolicyOperatorDefinition
value_operator = record {
  name = value;
  order = 1;
  action = modify;
  apply = value_apply;
  merge = value_merge;
  can_combine_with = value_can_combine_with;
}

-- add

unfoldable pub add_apply : Value → Json → OpResult
add_apply none v = configured add v (keep (some v))
add_apply (some p) v = configured add v (
    if not (is_comparable_array p)
    then unsupported add "an array of strings, numbers, or objects" p
    else keep (some (array (array_union (as_array p) (as_array v)))))

unfoldable pub add_merge : Json → Json → MergeResult
add_merge v w = both_configured add v w (merged (array (array_union (as_array v) (as_array w))))

-- `isSubset` of two comparable arrays.
abbrev pub comparable_subset : Json → Json → Bool
comparable_subset v w =
    if not (is_comparable_array v) || not (is_comparable_array w)
    then false
    else is_subset (as_array v) (as_array w)

unfoldable pub add_can_combine_with : OpName → Json → Json → Bool
add_can_combine_with add v w = false
add_can_combine_with value v w = check_value_combination add w v
add_can_combine_with subset_of v w = comparable_subset v w
add_can_combine_with o v w = if never_allowed add o then false else true

abbrev pub add_operator : PolicyOperatorDefinition
add_operator = record {
  name = add;
  order = 2;
  action = modify;
  apply = add_apply;
  merge = add_merge;
  can_combine_with = add_can_combine_with;
}

-- default

unfoldable pub default_apply : Value → Json → OpResult
default_apply none v = configured default v (keep (some v))
default_apply (some p) v = configured default v (
    if not (is_value_or_default_metadata_value p)
    then unsupported default "a string, number, boolean, or array" p
    else keep (some p))

unfoldable pub default_merge : Json → Json → MergeResult
default_merge v w =
    both_configured default v w
      (if deep_equal v w then merged v else unmerged (conflicting default))

unfoldable pub default_can_combine_with : OpName → Json → Json → Bool
default_can_combine_with default v w = false
default_can_combine_with value v w = check_value_combination default w v
default_can_combine_with o v w = true

abbrev pub default_operator : PolicyOperatorDefinition
default_operator = record {
  name = default;
  order = 3;
  action = modify;
  apply = default_apply;
  merge = default_merge;
  can_combine_with = default_can_combine_with;
}

-- one_of

unfoldable pub one_of_apply : Value → Json → OpResult
one_of_apply none v = configured one_of v (keep none)
one_of_apply (some p) v = configured one_of v (
    if not (is_one_of_metadata_value p)
    then unsupported one_of "a string, number, or object" p
    else if contains_element (as_array v) p
    then keep (some p)
    else failed not_in_one_of)

-- The test `intersection.length === 0`.
abbrev pub merged_unless_empty : List Json → MergeResult
merged_unless_empty [] = unmerged empty_intersection
merged_unless_empty (x ∷ xs) = merged (array (x ∷ xs))

unfoldable pub one_of_merge : Json → Json → MergeResult
one_of_merge v w =
    both_configured one_of v w (merged_unless_empty (array_intersection (as_array v) (as_array w)))

unfoldable pub one_of_can_combine_with : OpName → Json → Json → Bool
one_of_can_combine_with one_of v w = false
one_of_can_combine_with value v w = check_value_combination one_of w v
one_of_can_combine_with o v w = if never_allowed one_of o then false else true

abbrev pub one_of_operator : PolicyOperatorDefinition
one_of_operator = record {
  name = one_of;
  order = 4;
  action = check;
  apply = one_of_apply;
  merge = one_of_merge;
  can_combine_with = one_of_can_combine_with;
}

-- subset_of

unfoldable pub subset_of_apply : Value → Json → OpResult
subset_of_apply none v = configured subset_of v (keep none)
subset_of_apply (some p) v = configured subset_of v (
    if not (is_comparable_array p)
    then unsupported subset_of "an array of strings, numbers, or objects" p
    else keep (some (array (array_intersection (as_array p) (as_array v)))))

unfoldable pub subset_of_merge : Json → Json → MergeResult
subset_of_merge v w =
    both_configured subset_of v w (merged (array (array_intersection (as_array v) (as_array w))))

unfoldable pub subset_of_can_combine_with : OpName → Json → Json → Bool
subset_of_can_combine_with subset_of v w = false
subset_of_can_combine_with value v w = check_value_combination subset_of w v
subset_of_can_combine_with add v w = comparable_subset w v
subset_of_can_combine_with superset_of v w = comparable_subset w v
subset_of_can_combine_with o v w = if never_allowed subset_of o then false else true

abbrev pub subset_of_operator : PolicyOperatorDefinition
subset_of_operator = record {
  name = subset_of;
  order = 5;
  action = both;
  apply = subset_of_apply;
  merge = subset_of_merge;
  can_combine_with = subset_of_can_combine_with;
}

-- superset_of

unfoldable pub superset_of_apply : Value → Json → OpResult
superset_of_apply none v = configured superset_of v (keep none)
superset_of_apply (some p) v = configured superset_of v (
    if not (is_comparable_array p)
    then unsupported superset_of "an array of strings, numbers, or objects" p
    else if is_subset (as_array v) (as_array p)
    then keep (some p)
    else failed missing_required)

unfoldable pub superset_of_merge : Json → Json → MergeResult
superset_of_merge v w =
    both_configured superset_of v w (merged (array (array_union (as_array v) (as_array w))))

unfoldable pub superset_of_can_combine_with : OpName → Json → Json → Bool
superset_of_can_combine_with superset_of v w = false
superset_of_can_combine_with value v w = check_value_combination superset_of w v
superset_of_can_combine_with subset_of v w = comparable_subset v w
superset_of_can_combine_with o v w = if never_allowed superset_of o then false else true

abbrev pub superset_of_operator : PolicyOperatorDefinition
superset_of_operator = record {
  name = superset_of;
  order = 6;
  action = check;
  apply = superset_of_apply;
  merge = superset_of_merge;
  can_combine_with = superset_of_can_combine_with;
}

-- essential

unfoldable pub essential_apply : Value → Json → OpResult
essential_apply none v =
    configured essential v (if as_boolean v then failed missing_essential else keep none)
essential_apply (some p) v = configured essential v (
    if is_null p
    then unsupported essential "a string, number, boolean, object, or array" p
    else keep (some p))

unfoldable pub essential_merge : Json → Json → MergeResult
essential_merge v w = both_configured essential v w (merged (bool (as_boolean v || as_boolean w)))

unfoldable pub essential_can_combine_with : OpName → Json → Json → Bool
essential_can_combine_with essential v w = false
essential_can_combine_with value v w = if is_null w && as_boolean v then false else true
essential_can_combine_with o v w = true

abbrev pub essential_operator : PolicyOperatorDefinition
essential_operator = record {
  name = essential;
  order = 7;
  action = check;
  apply = essential_apply;
  merge = essential_merge;
  can_combine_with = essential_can_combine_with;
}

abbrev pub operators : OpName → Option PolicyOperatorDefinition
operators value = some value_operator
operators add = some add_operator
operators default = some default_operator
operators one_of = some one_of_operator
operators subset_of = some subset_of_operator
operators superset_of = some superset_of_operator
operators essential = some essential_operator
operators (other s) = none
