-- ===== src/Chain/Metadata.antt =====
-- The metadata of the leaf in `validateTrustChainImpl` of packages/core/src/trust-chain/validate.ts:
-- the immediate superior's, the constraints of the chain, and the metadata policies.
pub mod Laws
pub mod Policies
pub mod Pending
use oidfed.Common.{
  ℕ, suc, ◌+◌, ◌-◌, String, Str, js, Dict, get, put, has, delete, any, length, Bool, true, false,
  not, ◌&&◌, ◌||◌, Option, none, some, List, [], ◌∷◌, ◌++◌, map, if◌then◌else◌, Result, ok, err,
  is_some, str_eq,
}
use oidfed.Json.{Json, null, num, str, arr, obj, entries}
use oidfed.Constraints.{
  ConstraintError, NamingConstraints, TrustChainConstraints, check_constraints,
  apply_allowed_entity_types,
}
use oidfed.Policy.Operators.{
  PolicyOperatorDefinition, OpName, value, add, default, one_of, subset_of, superset_of, essential,
  other,
}
use oidfed.Policy.Names.{OpMap}
use oidfed.Policy.Merge.{Policy, PolicyClaims, resolve_metadata_policy, or_empty}
use oidfed.Policy.Apply.{Params, Metadata, read, override_params, apply_metadata_policy}
use oidfed.Chain.Values.{
  Platform, Reading, natural, negative, no_safe_integer, truthy, as_object, as_array, as_string,
  as_strings,
}
use oidfed.Chain.Errors.{
  ValidationError, constraint_violation, metadata_policy_error, metadata_policy_violation,
  index_error, check_error, add_if,
}
use oidfed.Chain.Links.{Link, claim_of}

pub record ContextualMetadataClaim : Type 0 where
  pub entity_type : Str
  pub parameter : Str

-- The claims that may stay pending, and the context's values.
pub record MetadataStage : Type 0 where
  pub deferred : List ContextualMetadataClaim
  pub context : Metadata

abbrev pub some_values : Dict Json → Params
some_values d = map (λ (e : Str × Json). (e.0, some e.1)) d

-- `payload.metadata`, an object of objects.
abbrev pub metadata_of : Option Json → Metadata
metadata_of v = map (λ (e : Str × Json). (e.0, some_values (as_object (some e.1)))) (as_object v)

-- The name of an operator.
abbrev pub op_name : Str → OpName
op_name s =
    if str_eq s (js "value")
    then value
    else if str_eq s (js "add")
    then add
    else if str_eq s (js "default")
    then default
    else if str_eq s (js "one_of")
    then one_of
    else if str_eq s (js "subset_of")
    then subset_of
    else if str_eq s (js "superset_of")
    then superset_of
    else if str_eq s (js "essential")
    then essential
    else other s

abbrev pub operators_of : Json → OpMap Json
operators_of v = map (λ (e : Str × Json). (op_name e.0, e.1)) (as_object (some v))

abbrev pub parameters_of : Json → Dict (OpMap Json)
parameters_of v = map (λ (e : Str × Json). (e.0, operators_of e.1)) (as_object (some v))

abbrev pub policy_of : Option Json → Option Policy
policy_of none = none
policy_of (some v) = some (map (λ (e : Str × Json). (e.0, parameters_of e.1)) (as_object (some v)))

abbrev pub crit_of : Option Json → Option (List OpName)
crit_of none = none
crit_of (some v) = some (map op_name (as_strings (some v)))

unfoldable pub policy_claims : Link → PolicyClaims
policy_claims link = record {
  metadata_policy = policy_of (claim_of "metadata_policy" link);
  metadata_policy_crit = crit_of (claim_of "metadata_policy_crit" link);
}

-- The loop over the superior's entity types: `Object.assign` onto what the leaf has.
unfoldable pub merge_superior : Metadata → Metadata → Metadata
merge_superior metadata [] = metadata
merge_superior metadata ((entity_type, params) ∷ types) = elim (get entity_type metadata) [
  | none ↦ merge_superior metadata types
  | some known ↦ merge_superior (put entity_type (override_params known params) metadata) types
]

-- The leaf's metadata with that of the immediate superior's statement, if there is one.
unfoldable pub published_metadata : Link → List Link → Metadata
published_metadata leaf [] = metadata_of (claim_of "metadata" leaf)
published_metadata leaf (superior ∷ subordinates) =
    merge_superior (metadata_of (claim_of "metadata" leaf))
      (metadata_of (claim_of "metadata" superior))

-- `metadata[type][parameter] = value`, where the type is there and the value is not.
abbrev pub fill : Params → Params → Params
fill [] params = params
fill ((parameter, v) ∷ more) params =
    fill more (elim (read parameter params) [ none ↦ put parameter v params | some w ↦ params ])

unfoldable pub add_context : Metadata → Metadata → Metadata
add_context [] metadata = metadata
add_context ((entity_type, params) ∷ types) metadata = elim (get entity_type metadata) [
  | none ↦ add_context types metadata
  | some known ↦ add_context types (put entity_type (fill params known) metadata)
]

-- Whether the policy of a claim is taken out: the metadata has the type and no value.
abbrev pub is_pending : Metadata → Policy → ContextualMetadataClaim → Bool
is_pending metadata policy claim = elim (get claim.entity_type metadata) [
  | none ↦ false
  | some params ↦
      not (is_some (read claim.parameter params))
      && has claim.parameter (or_empty (get claim.entity_type policy))
]

abbrev pub without_policy : Policy → ContextualMetadataClaim → Policy
without_policy policy claim =
    put claim.entity_type (delete claim.parameter (or_empty (get claim.entity_type policy))) policy

unfoldable pub defer :
    Metadata → List ContextualMetadataClaim → Policy → Policy × List ContextualMetadataClaim
defer metadata [] policy = (policy, [])
defer metadata (claim ∷ claims) policy =
    if is_pending metadata policy claim
    then (let (policy', pending) = defer metadata claims (without_policy policy claim) in
        (policy', claim ∷ pending))
    else defer metadata claims policy

-- The metadata, the pending claims and the errors.
pub record Resolved : Type 0 where
  pub metadata : Metadata
  pub pending : List ContextualMetadataClaim
  pub errors : List ValidationError

module _ (platform : Platform) where
  abbrev pub max_of : Option Json → Option ℕ
  max_of (some (num n)) = elim (platform.reading n) [ natural max ↦ some max | _ ↦ none ]
  max_of _ = none

  abbrev pub patterns_of : Option Json → Option (List Str)
  patterns_of none = none
  patterns_of (some v) = some (as_strings (some v))

  abbrev pub naming_of : Option Json → Option NamingConstraints
  naming_of none = none
  naming_of (some v) = some (record {
    permitted = patterns_of (get (js "permitted") (as_object (some v)));
    excluded = patterns_of (get (js "excluded") (as_object (some v)));
  })

  unfoldable pub constraints_of : Dict Json → TrustChainConstraints
  constraints_of d = record {
    max_path_length = max_of (get (js "max_path_length") d);
    naming_constraints = naming_of (get (js "naming_constraints") d);
  }

  abbrev pub is_violated : Result ConstraintError (Unit {0}) → Bool
  is_violated (ok x) = false
  is_violated (err e) = true

  abbrev pub has_constraints : Link → Bool
  has_constraints link = truthy platform.reading (claim_of "constraints" link)

  -- `checkConstraints` of one statement, with the subjects of the whole chain.
  unfoldable pub check_statement_constraints : List Str → Link → ℕ → List ValidationError
  check_statement_constraints subjects link j =
      if has_constraints link
      then add_if
          (is_violated (
            check_constraints platform.hostname
              (constraints_of (as_object (claim_of "constraints" link))) j subjects
              (length subjects)))
          (index_error constraint_violation j 16)
      else []

  abbrev pub keep_types : Option Json → Metadata → Metadata
  keep_types allowed metadata =
      if truthy platform.reading allowed
      then apply_allowed_entity_types (as_strings allowed) metadata
      else metadata

  abbrev pub restrict_types : Link → Metadata → Metadata
  restrict_types link metadata =
      if has_constraints link
      then keep_types (get (js "allowed_entity_types") (as_object (claim_of "constraints" link)))
          metadata
      else metadata

  -- The loop over the statements above the leaf.
  unfoldable pub check_all_constraints : List Str → List Link → ℕ → List ValidationError
  check_all_constraints subjects [] j = []
  check_all_constraints subjects (link ∷ links) j =
      check_statement_constraints subjects link j ++ check_all_constraints subjects links (j + 1)

  unfoldable pub restrict_all : List Link → Metadata → Metadata
  restrict_all [] metadata = metadata
  restrict_all (link ∷ links) metadata = restrict_all links (restrict_types link metadata)

  -- `applyMetadataPolicy` and its errors.
  unfoldable pub apply_policy :
      List PolicyOperatorDefinition → Metadata → Policy → List ContextualMetadataClaim → Resolved
  apply_policy customs metadata policy pending =
      elim (apply_metadata_policy platform.to_string metadata policy none customs) [
        | err e ↦ record {
          metadata = metadata;
          pending = pending;
          errors = check_error metadata_policy_violation 24 ∷ [];
        }
        | ok resolved ↦ record { metadata = resolved; pending = pending; errors = [] }
      ]

  -- A policy that was resolved; an empty one is not applied.
  unfoldable pub apply_resolved :
      List PolicyOperatorDefinition → MetadataStage → Metadata → Policy → Resolved
  apply_resolved customs stage metadata [] = record {
    metadata = metadata;
    pending = [];
    errors = [];
  }
  apply_resolved customs stage metadata (entry ∷ policy) =
      let filled = add_context stage.context metadata in
      let (policy', pending) = defer filled stage.deferred (entry ∷ policy) in
      apply_policy customs filled policy' pending

  -- `resolveMetadataPolicy` and what follows it.
  unfoldable pub resolve_policies :
      List PolicyOperatorDefinition → MetadataStage → Metadata → List Link → Resolved
  resolve_policies customs stage metadata links =
      elim (resolve_metadata_policy (map policy_claims links) customs) [
        | err e ↦ record {
          metadata = metadata;
          pending = [];
          errors = check_error metadata_policy_error 19 ∷ [];
        }
        | ok policy ↦ apply_resolved customs stage metadata policy
      ]

  unfoldable pub resolve_metadata :
      List PolicyOperatorDefinition → MetadataStage → Metadata → List Link → Resolved
  resolve_metadata customs stage metadata [] = record {
    metadata = metadata;
    pending = [];
    errors = [];
  }
  resolve_metadata customs stage metadata (link ∷ links) =
      resolve_policies customs stage metadata (link ∷ links)
