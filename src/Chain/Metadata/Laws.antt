-- ===== src/Chain/Metadata/Laws.antt =====
-- The constraints of a chain that validates, and what the context of a preparation may change.
use oidfed.Common.{
  ℕ, ◌+◌, Str, get, put, get-put, ◌≡◌, refl, true, false, none, some, List, [], ◌∷◌, inl, inr,
  arith, Result, ok, err, Bool-cases, Option-cases, length, str_eq, str_eq_iff, if◌then◌else◌,
}
use oidfed.Json.{Json}
use oidfed.Constraints.{ConstraintError}
use oidfed.Constraints.Laws.{IsWithin, check_constraints_iff}
use oidfed.Policy.Operators.{Value}
use oidfed.Policy.Apply.{Params, Metadata, read}
use oidfed.Chain.Values.{Platform, as_object}
use oidfed.Chain.Errors.{append-nil, add_if-nil, index_error, constraint_violation}
use oidfed.Chain.Links.{Link, claim_of}
use oidfed.Chain.Metadata.{
  constraints_of, has_constraints, is_violated, check_statement_constraints, check_all_constraints,
  fill, add_context,
}

module _ (platform : Platform) (subjects : List Str) where
  not_violated :
      (r : Result ConstraintError (Unit {0})) → is_violated platform r ≡ false → r ≡ ok tt
  not_violated (ok tt) h = refl
  not_violated (err e) h = cc

  -- The constraints of a statement at a place, if it has any.
  abbrev pub KeepsConstraints : Link → ℕ → Type 0
  KeepsConstraints link j =
      has_constraints platform link ≡ true
      → IsWithin platform.hostname
          (constraints_of platform (as_object (claim_of "constraints" link))) j subjects

  check_statement-KeepsConstraints :
      (link : Link) (j : ℕ)
      → check_statement_constraints platform subjects link j ≡ []
      → KeepsConstraints link j
  unfolding check_statement_constraints
  check_statement-KeepsConstraints link j h there =
      let h' =
        add_if-nil (is_violated platform _) (index_error constraint_violation j 16)
          (rw there at h) in
      (check_constraints_iff platform.hostname _ j subjects (length subjects)).0 (not_violated _ h')

  -- From a place on, each statement's constraints are kept.
  abbrev pub AllKept : List Link → ℕ → Type 0
  AllKept [] j = Unit
  AllKept (link ∷ links) j = KeepsConstraints link j × AllKept links (j + 1)

  pub check_all_constraints-AllKept :
      (links : List Link) (j : ℕ)
      → check_all_constraints platform subjects links j ≡ []
      → AllKept links j
  unfolding check_all_constraints
  check_all_constraints-AllKept [] j h = tt
  check_all_constraints-AllKept (link ∷ links) j h =
      let (first, rest) = append-nil (check_statement_constraints platform subjects link j) _ h in
      (
        check_statement-KeepsConstraints link j first,
        check_all_constraints-AllKept links (j + 1) rest,
      )

pub read-put :
    (k j : Str) (w : Value) (params : Params)
    → read j (put k w params) ≡ (if str_eq k j then w else read j params)
unfolding read
read-put k j w params = elim (Bool-cases (str_eq k j)) [
  | inl e ↦ rw (read, get-put k j w params, e) refl
  | inr e ↦ rw (read, get-put k j w params, e) refl
]

fill-keeps :
    (more params : Params) (parameter : Str) (v : Json)
    → read parameter params ≡ some v
    → read parameter (fill more params) ≡ some v
fill-keeps [] params parameter v h = h
fill-keeps ((k, w) ∷ more) params parameter v h = elim (Option-cases (read k params)) [
  | inr (x, there) ↦ rw there (fill-keeps more params parameter v h)
  | inl absent ↦ rw absent (fill-keeps more (put k w params) parameter v (kept absent))
]
  where
    kept : read k params ≡ none → read parameter (put k w params) ≡ some v
    kept absent = elim (Bool-cases (str_eq k parameter)) [
      | inl same ↦
          let e : k ≡ parameter = (str_eq_iff k parameter).0 same in
          let absent' : read parameter params ≡ none = rw e at absent in absurd (cc (absent', h))
      | inr other ↦ rw (read-put k parameter w params, other) h
    ]

-- A context never replaces a value that the metadata has.
pub add_context-keeps :
    (context metadata : Metadata) (entity_type parameter : Str) (params : Params) (v : Json)
    → get entity_type metadata ≡ some params
    → read parameter params ≡ some v
    → (params' : Params) × (get entity_type (add_context context metadata) ≡ some params')
      × (read parameter params' ≡ some v)
unfolding add_context
add_context-keeps [] metadata entity_type parameter params v at_type h = (params, at_type, h)
add_context-keeps ((t, more) ∷ context) metadata entity_type parameter params v at_type h =
    elim (Option-cases (get t metadata)) [
      | inl absent ↦
          rw (absent, add_context)
            (add_context-keeps context metadata entity_type parameter params v at_type h)
      | inr (known, there) ↦ elim (Bool-cases (str_eq t entity_type)) [
        | inl same ↦
            let e : t ≡ entity_type = (str_eq_iff t entity_type).0 same in
            let there' : get entity_type metadata ≡ some known = rw e at there in
            let same_params : known ≡ params = ground (arith, there', at_type) in
            rw (there, add_context)
              (add_context-keeps context (put t (fill more known) metadata) entity_type parameter
                (fill more known) v
                (rw (get-put t entity_type (fill more known) metadata, same) refl)
                (rw same_params (fill-keeps more params parameter v h)))
        | inr other ↦
            rw (there, add_context)
              (add_context-keeps context (put t (fill more known) metadata) entity_type parameter
                params v (rw (get-put t entity_type (fill more known) metadata, other) at_type) h)
      ]
    ]
