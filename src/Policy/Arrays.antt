-- ===== src/Policy/Arrays.antt =====
-- The array helpers of packages/core/src/metadata-policy/operators.ts, and what they mean up to
-- `deepEqual`.
pub mod Laws
use oidfed.Common.{
  ◌≡◌, refl, Bool, true, false, not, List, [], ◌∷◌, ◌++◌, any, all, filter, if◌then◌else◌,
}
use oidfed.Json.{Json, deep_equal}

unfoldable pub contains_element : List Json → Json → Bool
contains_element arr element = any (λ item. deep_equal item element) arr

unfoldable pub is_subset : List Json → List Json → Bool
is_subset subset superset = all (λ item. any (λ s. deep_equal item s) superset) subset

-- One round of the loop of `arrayUnion`.
abbrev add_new : List Json → Json → List Json
add_new result item = if any (λ r. deep_equal r item) result then result else result ++ item ∷ []

union_from : List Json → List Json → List Json
union_from result [] = result
union_from result (item ∷ b) = union_from (add_new result item) b

unfoldable pub array_union : List Json → List Json → List Json
unfolding union_from
array_union a b = union_from a b

unfoldable pub array_intersection : List Json → List Json → List Json
array_intersection a b = filter (λ item. any (λ bi. deep_equal item bi) b) a
