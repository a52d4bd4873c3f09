-- ===== src/Constraints.antt =====
-- packages/core/src/constraints/index.ts: the constraints of a subordinate statement, against the
-- chain below it. `hostname` is that of the URL standard: `none` where `new URL` throws.
pub mod Laws
pub mod Types
use oidfed.Common.{
  ℕ, zero, suc, ◌+◌, Str, js, Dict, get, put, starts_with, ends_with, str_eq, get_elem?, any, ltb,
  leb, Bool, true, false, Option, none, some, List, [], ◌∷◌, if◌then◌else◌, Result, ok, err,
}
use oidfed.Json.{Json}

pub record NamingConstraints : Type 0 where
  pub permitted : Option (List Str)
  pub excluded : Option (List Str)

pub record TrustChainConstraints : Type 0 where
  pub max_path_length : Option ℕ
  pub naming_constraints : Option NamingConstraints

-- The errors that are returned, each with the numbers or the entity that its text shows, and the
-- exception of `new URL` on what is no URL.
pub data ConstraintError : Type 0 where
  path_too_long : ℕ → ℕ → ConstraintError
  name_refused : Str → ℕ → ConstraintError
  type_error : ConstraintError

-- `constrainerPosition - 1 <= maxPathLength`, where the difference may be -1.
unfoldable pub check_max_path_length : ℕ → ℕ → ℕ → Bool
check_max_path_length max_path_length position chain_length = leb position (max_path_length + 1)

unfoldable pub matches_domain_pattern : Str → Str → Bool
matches_domain_pattern hostname pattern =
    if starts_with pattern (js ".") then ends_with hostname pattern else str_eq hostname pattern

-- The part of `checkNamingConstraints` behind the parsing of the host name.
unfoldable pub check_hostname : NamingConstraints → Str → Bool
check_hostname naming host =
    let allowed : Bool = elim naming.permitted [
      | none ↦ true
      | some patterns ↦ any (matches_domain_pattern host) patterns
    ] in
    elim naming.excluded [
      | none ↦ allowed
      | some patterns ↦ if any (matches_domain_pattern host) patterns then false else allowed
    ]

-- `Set.has` of the allowed types with `federation_entity`.
abbrev pub allowed_type : List Str → Str → Bool
allowed_type allowed key =
    if any (str_eq key) allowed then true else str_eq key (js "federation_entity")

module _ {V : Type 0} where
  -- The loop over the keys of the metadata.
  unfoldable pub keep_allowed : List Str → Dict V → Dict V → Dict V → Dict V
  keep_allowed allowed metadata result [] = result
  keep_allowed allowed metadata result ((key, _) ∷ rest) =
      keep_allowed allowed metadata
        (if allowed_type allowed key
          then (elim (get key metadata) [ none ↦ result | some value ↦ put key value result ])
          else result)
        rest

  unfoldable pub apply_allowed_entity_types : List Str → Dict V → Dict V
  apply_allowed_entity_types allowed metadata = keep_allowed allowed metadata [] metadata

module _ (hostname : Str → Option Str) where
  -- `none`: an exception.
  unfoldable pub check_naming_constraints : NamingConstraints → Str → Option Bool
  check_naming_constraints naming entity_id = elim (hostname entity_id) [
    | none ↦ none
    | some host ↦ some (check_hostname naming host)
  ]

  -- `chain[i]?.payload.sub`, checked; past the end it is no URL.
  abbrev pub check_entry : NamingConstraints → List Str → ℕ → Result ConstraintError (Unit {0})
  check_entry naming subjects i = elim (get_elem? subjects i) [
    | none ↦ err type_error
    | some subject ↦ elim (check_naming_constraints naming subject) [
      | none ↦ err type_error
      | some true ↦ ok tt
      | some false ↦ err (name_refused subject i)
    ]
  ]

  -- The loop, from `i` on for the given number of rounds.
  unfoldable pub check_names :
      NamingConstraints → List Str → ℕ → ℕ → Result ConstraintError (Unit {0})
  check_names naming subjects i zero = ok tt
  check_names naming subjects i (suc rounds) =
      let rest = check_names naming subjects (i + 1) rounds in
      elim (check_entry naming subjects i) [ err e ↦ err e | ok _ ↦ rest ]

  abbrev pub check_naming :
      Option NamingConstraints → ℕ → List Str → Result ConstraintError (Unit {0})
  check_naming none position subjects = ok tt
  check_naming (some naming) position subjects = check_names naming subjects 0 position

  -- The chain is given by the subjects of its statements, leaf first, and its length.
  unfoldable pub check_constraints :
      TrustChainConstraints → ℕ → List Str → ℕ → Result ConstraintError (Unit {0})
  check_constraints constraints position subjects chain_length = elim constraints.max_path_length [
    | none ↦ check_naming constraints.naming_constraints position subjects
    | some max ↦
        if check_max_path_length max position chain_length
        then check_naming constraints.naming_constraints position subjects
        else err (path_too_long position max)
  ]
