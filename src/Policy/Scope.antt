-- ===== src/Policy/Scope.antt =====
-- `normalizeScope` and `denormalizeScope` of packages/core/src/metadata-policy/apply.ts: a scope
-- is a string of words with spaces between them, and a list of words to the operators.
pub mod Laws
use oidfed.Common.{
  ℕ, Str, ◌≡◌, refl, Bool, true, false, List, [], ◌∷◌, ◌++◌, filter, ◌==◌, if◌then◌else◌,
}

abbrev pub space : ℕ
space = 32

-- `scope.split(" ")`, the word so far first.
split_from : Str → Str → List Str
split_from word [] = word ∷ []
split_from word (c ∷ s) =
    let closed = word ∷ split_from [] s in
    let longer = split_from (word ++ c ∷ []) s in if c == space then closed else longer

-- `Boolean`, on strings.
abbrev pub is_nonempty : Str → Bool
is_nonempty [] = false
is_nonempty (c ∷ s) = true

unfoldable pub normalize_scope : Str → List Str
unfolding split_from
normalize_scope scope = filter is_nonempty (split_from [] scope)

unfoldable pub denormalize_scope : List Str → Str
denormalize_scope [] = []
denormalize_scope (word ∷ []) = word
denormalize_scope (word ∷ next ∷ words) = word ++ space ∷ denormalize_scope (next ∷ words)
