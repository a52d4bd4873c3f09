-- ===== src/MetadataValues.antt =====
-- packages/core/src/metadata-values.ts: the forbidden nulls of metadata, with their paths, and
-- `assertMetadataValuesNotNull` of packages/authority/src/utils/subordinate-statement-shape.ts.
-- `is_integer` is `Number.isInteger` on the codes of numbers.
use oidfed.Common.{
  ℕ, ◌+◌, String, Str, js, Dict, str_eq, all, Bool, true, false, not, ◌&&◌, List, [], ◌∷◌, ◌++◌,
  if◌then◌else◌,
}
use oidfed.Json.{
  fields, Json, null, num, str, arr, obj, Items, nil, cons, Fields, end, field, elems,
}

pub data Component : Type 0 where
  key : Str → Component
  index : ℕ → Component

abbrev is_key : Component → String → Bool
is_key (key k) name = str_eq k (js name)
is_key (index i) name = false

abbrev is_string : Component → Bool
is_string (key k) = true
is_string (index i) = false

abbrev is_number : Component → Bool
is_number c = not (is_string c)

unfoldable pub is_wallet_claim_path : List Component → Bool
is_wallet_claim_path (a ∷ b ∷ c ∷ d ∷ e ∷ f ∷ g ∷ []) =
    is_key a "openid_credential_issuer"
    && is_key b "credential_configurations_supported"
    && is_string c
    && is_key d "credential_metadata"
    && is_key e "claims"
    && is_number f
    && is_key g "path"
is_wallet_claim_path (a ∷ b ∷ c ∷ d ∷ e ∷ f ∷ g ∷ h ∷ []) =
    is_key a "openid_credential_verifier"
    && is_key b "dcql_queries"
    && is_number c
    && is_key d "credentials"
    && is_number e
    && is_key f "claims"
    && is_number g
    && is_key h "path"
is_wallet_claim_path _ = false

abbrev is_nonempty : Items → Bool
is_nonempty nil = false
is_nonempty (cons v vs) = true

abbrev is_component : (ℕ → Bool) → Json → Bool
is_component is_integer null = true
is_component is_integer (str s) = true
is_component is_integer (num n) = is_integer n
is_component is_integer _ = false

unfoldable mutual
  unfolding elems

  -- The paths that `walk` records, in order.
  pub walk : (ℕ → Bool) → Json → List Component → List (List Component)
  walk is_integer null path = path ∷ []
  walk is_integer (arr vs) path =
      let inside = walk_items is_integer vs 0 path in
      if is_wallet_claim_path path && is_nonempty vs && all (is_component is_integer) (elems vs)
      then []
      else inside
  walk is_integer (obj fs) path = walk_fields is_integer fs path
  walk is_integer _ path = []

  pub walk_items : (ℕ → Bool) → Items → ℕ → List Component → List (List Component)
  walk_items is_integer nil i path = []
  walk_items is_integer (cons v vs) i path =
      walk is_integer v (path ++ index i ∷ []) ++ walk_items is_integer vs (i + 1) path

  pub walk_fields : (ℕ → Bool) → Fields → List Component → List (List Component)
  walk_fields is_integer end path = []
  walk_fields is_integer (field k v fs) path =
      walk is_integer v (path ++ key k ∷ []) ++ walk_fields is_integer fs path

-- `findInvalidMetadataNullPaths` of an object.
unfoldable pub find_invalid_metadata_null_paths : (ℕ → Bool) → Dict Json → List (List Component)
find_invalid_metadata_null_paths is_integer metadata = walk is_integer (obj (fields metadata)) []

-- Whether `assertMetadataValuesNotNull` throws.
unfoldable pub has_null : (ℕ → Bool) → Dict Json → Bool
has_null is_integer metadata = elim (find_invalid_metadata_null_paths is_integer metadata) [
  | [] ↦ false
  | path ∷ paths ↦ true
]
