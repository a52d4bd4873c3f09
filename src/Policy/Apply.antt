-- ===== src/Policy/Apply.antt =====
-- packages/core/src/metadata-policy/apply.ts: a resolved policy applied to an entity's metadata.
-- `to_string` is what JavaScript's `join` writes for an element that is neither a string nor null.
pub mod Order
pub mod Checks
pub mod Frame
pub mod NoNull
use oidfed.Common.{
  ℕ, Str, js, Dict, get, put, delete, ◌≡◌, Bool, true, false, ◌&&◌, Option, none, some, List, [],
  ◌∷◌, ◌++◌, map, leb, str_eq, if◌then◌else◌, Result, ok, err, ◌>>=◌,
}
use oidfed.Json.{Json, null, str, arr, elems}
use oidfed.Policy.Operators.{
  OpName, OpError, Value, OpResult, keep, removed, failed, PolicyOperatorDefinition, array,
}
use oidfed.Policy.Names.{OpMap}
use oidfed.Policy.Custom.{Lookup, CustomError, validate_custom_operators, build_operator_lookup}
use oidfed.Policy.Merge.{Policy, or_empty}
use oidfed.Policy.Scope.{normalize_scope, denormalize_scope}

-- The metadata of one entity type, and of an entity.
abbrev pub Params : Type 0
Params = Dict Value

abbrev pub Metadata : Type 0
Metadata = Dict Params

pub data ApplyError : Type 0 where
  custom : CustomError → ApplyError
  violation : Str → Str → OpName → OpError → ApplyError
  null_output : Str → Str → OpName → ApplyError

-- `entityMetadata[param]`
unfoldable pub read : Str → Params → Value
read param params = elim (get param params) [ none ↦ none | some v ↦ v ]

unfoldable pub override_params : Params → Params → Params
override_params known [] = known
override_params known ((param, v) ∷ params) = override_params (put param v known) params

unfoldable pub override_types : Metadata → Metadata → Metadata
unfolding override_params
override_types known [] = known
override_types known ((entity_type, params) ∷ types) =
    override_types
      (put entity_type (override_params (or_empty (get entity_type known)) params) known) types

abbrev pub Step : Type 0
Step = PolicyOperatorDefinition × OpName × Json

-- `.filter` and the look-up of `.sort` and of the loop.
unfoldable pub known_steps : Lookup → OpMap Json → List Step
known_steps lookup [] = []
known_steps lookup ((op, v) ∷ ops) =
    let rest = known_steps lookup ops in
    elim (lookup op) [ none ↦ rest | some def ↦ (def, op, v) ∷ rest ]

-- `.sort` by order, which is stable.
pub insert_step : Step → List Step → List Step
insert_step s [] = s ∷ []
insert_step s (t ∷ ts) = if leb s.0.order t.0.order then s ∷ t ∷ ts else t ∷ insert_step s ts

unfoldable pub sort_steps : List Step → List Step
unfolding insert_step
sort_steps [] = []
sort_steps (s ∷ ss) = insert_step s (sort_steps ss)

abbrev pub is_scope_text : Str → Value → Bool
is_scope_text param (some (str s)) = str_eq param (js "scope")
is_scope_text param _ = false

abbrev pub words : Value → Value
words (some (str s)) = some (array (map str (normalize_scope s)))
words v = v

module _ (entity_type param : Str) where
  -- The body of the loop over the sorted operators.
  unfoldable pub store_result : OpName → Params → OpResult → Result ApplyError Params
  store_result op params (failed e) = err (violation entity_type param op e)
  store_result op params removed = ok (delete param params)
  store_result op params (keep (some null)) = err (null_output entity_type param op)
  store_result op params (keep v) = ok (put param v params)

  unfoldable pub apply_steps : Params → List Step → Result ApplyError Params
  apply_steps params [] = ok params
  apply_steps params ((def, op, v) ∷ steps) = do
    params' ← store_result op params (def.apply (read param params) v)
    apply_steps params' steps

module _ (to_string : Json → Str) where
  abbrev pub text_of : Json → Str
  text_of (str s) = s
  text_of null = []
  text_of v = to_string v

  abbrev pub joined : Value → Value
  joined (some (arr xs)) = some (str (denormalize_scope (map text_of (elems xs))))
  joined v = v

  -- `Array.isArray` of what is left: an absent parameter stays absent.
  abbrev pub join_scope : Str → Params → Params
  join_scope param params = elim (read param params) [
    | some (arr xs) ↦ put param (joined (some (arr xs))) params
    | _ ↦ params
  ]

  -- One parameter; a scope is a list of words meanwhile.
  unfoldable pub apply_param : Str → Str → Lookup → Params → OpMap Json → Result ApplyError Params
  unfolding store_result apply_steps
  apply_param entity_type param lookup params ops =
      let steps = sort_steps (known_steps lookup ops) in
      if is_scope_text param (read param params)
      then (do
        params' ← apply_steps entity_type param (put param (words (read param params)) params) steps
        ok (join_scope param params'))
      else apply_steps entity_type param params steps

  module _ (lookup : Lookup) where
    unfoldable pub apply_params : Str → Params → Dict (OpMap Json) → Result ApplyError Params
    apply_params entity_type params [] = ok params
    apply_params entity_type params ((param, ops) ∷ policies) = do
      params' ← apply_param entity_type param lookup params ops
      apply_params entity_type params' policies

    unfoldable pub apply_types : Metadata → Policy → Result ApplyError Metadata
    apply_types metadata [] = ok metadata
    apply_types metadata ((entity_type, policies) ∷ types) = do
      params ← apply_params entity_type (or_empty (get entity_type metadata)) policies
      apply_types (put entity_type params metadata) types

  abbrev from_custom : Result CustomError (Unit {0}) → Result ApplyError (Unit {0})
  from_custom (ok x) = ok x
  from_custom (err e) = err (custom e)

  unfoldable pub apply_metadata_policy :
      Metadata
      → Policy
      → Option Metadata
      → List PolicyOperatorDefinition
      → Result ApplyError Metadata
  apply_metadata_policy metadata policy superior customs = do
    _ ← from_custom (validate_custom_operators customs)
    apply_types (build_operator_lookup customs) (override_types metadata (or_empty superior)) policy
