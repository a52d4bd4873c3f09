-- ===== src/Policy/Operators.antt =====
-- packages/core/src/metadata-policy/operators.ts, with the types of the operators from
-- packages/core/src/types.ts and their names from packages/core/src/constants.ts.
-- `undefined` is `none`. Error texts are constructors that carry what the text shows. The casts
-- `as unknown[]` read an array; on any other value, which the configuration check excludes, the
-- model reads the empty array.
use oidfed.Common.{
  ℕ, Str, String, Bool, true, false, ◌&&◌, ◌||◌, Option, none, some, List, [], all, if◌then◌else◌,
}
use oidfed.Json.{Json, null, bool, num, str, arr, obj, elems, items, deep_equal}
use oidfed.Policy.Arrays.{contains_element, is_subset}

-- A name: one of the seven standard ones, or any other string.
pub data OpName : Type 0 where
  value add default one_of subset_of superset_of essential : OpName
  other : Str → OpName

pub data Action : Type 0 where
  check modify both : Action

-- A metadata parameter: `none` is `undefined`.
abbrev pub Value : Type 0
Value = Option Json

pub data OpError : Type 0 where
  invalid_operator_value : OpName → String → String → OpError
  invalid_metadata_value : OpName → String → String → OpError
  conflicting : OpName → OpError
  empty_intersection not_in_one_of missing_required missing_essential : OpError
  custom_error : Str → OpError

pub data OpResult : Type 0 where
  keep : Value → OpResult
  removed : OpResult
  failed : OpError → OpResult

pub data MergeResult : Type 0 where
  merged : Json → MergeResult
  unmerged : OpError → MergeResult

pub record PolicyOperatorDefinition : Type 0 where
  pub name : OpName
  pub order : ℕ
  pub action : Action
  pub apply : Value → Json → OpResult
  pub merge : Json → Json → MergeResult
  pub can_combine_with : OpName → Json → Json → Bool

abbrev pub value_type : Value → String
value_type none = "undefined"
value_type (some null) = "null"
value_type (some (bool b)) = "boolean"
value_type (some (num n)) = "number"
value_type (some (str s)) = "string"
value_type (some (arr xs)) = "array"
value_type (some (obj fs)) = "object"

abbrev pub is_scalar : Json → Bool
is_scalar (str s) = true
is_scalar (num n) = true
is_scalar (bool b) = true
is_scalar _ = false

abbrev pub is_array : Json → Bool
is_array (arr xs) = true
is_array _ = false

abbrev pub is_value_or_default_metadata_value : Json → Bool
is_value_or_default_metadata_value v = is_scalar v || is_array v

abbrev pub is_comparable_element : Json → Bool
is_comparable_element (str s) = true
is_comparable_element (num n) = true
is_comparable_element (obj fs) = true
is_comparable_element _ = false

abbrev pub is_comparable_array : Json → Bool
is_comparable_array (arr xs) = all is_comparable_element (elems xs)
is_comparable_array _ = false

abbrev pub is_one_of_metadata_value : Json → Bool
is_one_of_metadata_value v = is_comparable_element v

abbrev pub is_null : Json → Bool
is_null null = true
is_null _ = false

abbrev pub is_boolean : Json → Bool
is_boolean (bool b) = true
is_boolean _ = false

-- `v as unknown[]`, `v as boolean`
abbrev pub as_array : Json → List Json
as_array (arr xs) = elems xs
as_array _ = []

abbrev pub as_boolean : Json → Bool
as_boolean (bool b) = b
as_boolean _ = false

abbrev pub array : List Json → Json
array xs = arr (items xs)

abbrev pub config_unless : Bool → OpName → String → Json → Option OpError
config_unless okay name expected v =
    if okay then none else some (invalid_operator_value name expected (value_type (some v)))

-- `none`: the configuration is valid.
unfoldable pub validate_standard_policy_operator_configuration : OpName → Json → Option OpError
validate_standard_policy_operator_configuration value v =
    config_unless (is_null v || is_value_or_default_metadata_value v) value
      "a string, number, boolean, array, or null" v
validate_standard_policy_operator_configuration default v =
    config_unless (is_value_or_default_metadata_value v) default
      "a string, number, boolean, or array" v
validate_standard_policy_operator_configuration add v =
    config_unless (is_comparable_array v) add "an array of strings, numbers, or objects" v
validate_standard_policy_operator_configuration subset_of v =
    config_unless (is_comparable_array v) subset_of "an array of strings, numbers, or objects" v
validate_standard_policy_operator_configuration superset_of v =
    config_unless (is_comparable_array v) superset_of "an array of strings, numbers, or objects" v
validate_standard_policy_operator_configuration one_of v =
    config_unless (is_comparable_array v) one_of "an array of strings, numbers, or objects" v
validate_standard_policy_operator_configuration essential v =
    config_unless (is_boolean v) essential "a boolean" v
validate_standard_policy_operator_configuration (other s) v = none

-- The set of pairs `NEVER_ALLOWED`.
abbrev pub never_allowed : OpName → OpName → Bool
never_allowed add one_of = true
never_allowed one_of add = true
never_allowed one_of subset_of = true
never_allowed subset_of one_of = true
never_allowed one_of superset_of = true
never_allowed superset_of one_of = true
never_allowed _ _ = false

unfoldable pub check_value_combination : OpName → Json → Json → Bool
check_value_combination add v w = is_array v && is_subset (as_array w) (as_array v)
check_value_combination default v w = if is_null v then false else deep_equal v w
check_value_combination one_of v w = if is_array v then false else contains_element (as_array w) v
check_value_combination subset_of v w = is_array v && is_subset (as_array v) (as_array w)
check_value_combination superset_of v w = is_array v && is_subset (as_array w) (as_array v)
check_value_combination essential v w = if is_null v && as_boolean w then false else true
check_value_combination value v w = false
check_value_combination (other s) v w = false

-- The guard that opens every `apply` and the two that open every `merge`.
abbrev pub configured : OpName → Json → OpResult → OpResult
configured name v k = elim (validate_standard_policy_operator_configuration name v) [
  | some e ↦ failed e
  | none ↦ k
]

abbrev pub both_configured : OpName → Json → Json → MergeResult → MergeResult
both_configured name v w k = elim (validate_standard_policy_operator_configuration name v) [
  | some e ↦ unmerged e
  | none ↦ elim (validate_standard_policy_operator_configuration name w) [
    | some e ↦ unmerged e
    | none ↦ k
  ]
]

-- `invalidMetadataValue`, as a result.
abbrev pub unsupported : OpName → String → Json → OpResult
unsupported name expected p = failed (invalid_metadata_value name expected (value_type (some p)))
