-- ===== src/Tests/Operators.antt =====
-- The operators and equality at concrete inputs.
use oidfed.Common.{js, ◌≡◌, refl, some, [], ◌∷◌, true, str_eq, arith}
use oidfed.Json.{Json, str, num, arr, obj, items, elems, end, field, deep_equal, IsJson}
use oidfed.Policy.Arrays.{array_union, array_intersection}
use oidfed.Policy.Operators.{
  one_of, other, merged, PolicyOperatorDefinition, both, keep,
  validate_standard_policy_operator_configuration,
}
use oidfed.Policy.Standard.{one_of_merge, subset_of_merge, subset_of_apply, one_of_operator}
use oidfed.Policy.Standard.Refines.{Refines, merge-Refines}
use oidfed.Policy.Standard.Exact.{and_then, subset_of_merge_exact}
use oidfed.Policy.Custom.{validate_custom_operators}
use oidfed.Policy.Custom.Laws.{AreFresh, validate_custom_operators-AreFresh}
use oidfed.Policy.Scope.{normalize_scope, denormalize_scope}
use oidfed.Policy.Scope.Laws.{normalize_scope-denormalize_scope}

abbrev a : Json
a = str (js "a")

abbrev b : Json
b = str (js "b")

abbrev c : Json
c = str (js "c")

abbrev ab : Json
ab = arr (items (a ∷ b ∷ []))

abbrev bc : Json
bc = arr (items (b ∷ c ∷ []))

abbrev only_b : Json
only_b = arr (items (b ∷ []))

abbrev abc : Json
abc = arr (items (a ∷ b ∷ c ∷ []))

subset_of_merge_exact_example :
    subset_of_apply (some abc) only_b
    ≡ and_then (subset_of_apply (some abc) ab) (λ y. subset_of_apply y bc)
unfolding IsJson subset_of_merge validate_standard_policy_operator_configuration elems items
    array_intersection array_union deep_equal str_eq
subset_of_merge_exact_example =
    subset_of_merge_exact ab bc only_b (some abc) (tt, (tt, tt)) (tt, (tt, (tt, tt))) refl

merge-Refines_example : IsJson only_b × Refines one_of only_b ab × Refines one_of only_b bc
unfolding IsJson one_of_merge validate_standard_policy_operator_configuration elems items
    array_intersection array_union deep_equal str_eq
merge-Refines_example =
    merge-Refines one_of one_of_operator ab bc only_b refl (tt, (tt, tt)) (tt, (tt, tt)) refl

abbrev xy : Json
xy = obj (field (js "x") (num 1) (field (js "y") (num 2) end))

abbrev yx : Json
yx = obj (field (js "y") (num 2) (field (js "x") (num 1) end))

abbrev intersects : PolicyOperatorDefinition
intersects = record {
  name = other (js "intersects");
  order = 5;
  action = both;
  apply = λ v p. keep v;
  merge = λ v w. merged v;
  can_combine_with = λ o v w. true;
}

validate_custom_operators-AreFresh_example : AreFresh (intersects ∷ [])
unfolding validate_custom_operators
validate_custom_operators-AreFresh_example =
    validate_custom_operators-AreFresh (intersects ∷ []) refl

normalize_scope-denormalize_scope_example :
    normalize_scope (denormalize_scope (js "a" ∷ js "b" ∷ [])) ≡ js "a" ∷ js "b" ∷ []
normalize_scope-denormalize_scope_example =
    normalize_scope-denormalize_scope (js "a" ∷ js "b" ∷ [])
      ((refl, ((λ e. omega arith), tt)), ((refl, ((λ e. omega arith), tt)), tt))
