-- ===== src/Chain/Errors.antt =====
-- `ValidationError` of packages/core/src/types.ts and the reporting of errors in
-- packages/core/src/trust-chain/validate.ts. Messages are left out.
use oidfed.Common.{
  ℕ, Str, Bool, true, false, Option, none, some, List, [], ◌∷◌, ◌++◌, ◌≡◌, refl, if◌then◌else◌, In,
  inl, inr, All, map, Result, ok, err,
}

pub data ErrorCode : Type 0 where
  trust_chain_invalid expired unsupported_alg signature_invalid trust_anchor_unknown : ErrorCode
  constraint_violation metadata_policy_error metadata_policy_violation : ErrorCode
  trust_mark_invalid : ErrorCode

pub record ValidationError : Type 0 where
  pub code : ErrorCode
  pub statement_index : Option ℕ
  pub field : Option Str
  pub check_number : Option ℕ

-- `addError` with a statement, a field and a check; with a statement and a check; with a check.
abbrev pub field_error : ErrorCode → ℕ → Str → ℕ → ValidationError
field_error code j name n = record {
  code = code;
  statement_index = some j;
  field = some name;
  check_number = some n;
}

abbrev pub index_error : ErrorCode → ℕ → ℕ → ValidationError
index_error code j n = record {
  code = code;
  statement_index = some j;
  field = none;
  check_number = some n;
}

abbrev pub check_error : ErrorCode → ℕ → ValidationError
check_error code n = record {
  code = code;
  statement_index = none;
  field = none;
  check_number = some n;
}

-- "Trust chain validation failed"
abbrev pub failed : ValidationError
failed = record {
  code = trust_chain_invalid;
  statement_index = none;
  field = none;
  check_number = none;
}

-- `if (test) addError(...)`
abbrev pub add_if {ℓ} : {A : Type ℓ} → Bool → A → List A
add_if true e = e ∷ []
add_if false e = []

-- A loop that adds errors for each element, and checks one after another.
module _ {ℓ κ} {A : Type ℓ} {B : Type κ} where
  unfoldable pub flat_map : (A → List B) → List A → List B
  flat_map f [] = []
  flat_map f (x ∷ xs) = f x ++ flat_map f xs

unfoldable pub concat {ℓ} : {A : Type ℓ} → List (List A) → List A
concat [] = []
concat (xs ∷ xss) = xs ++ concat xss

-- The returned errors.
unfoldable pub report : Bool → List ValidationError → List ValidationError
report verbose_errors errors = if verbose_errors then errors else failed ∷ []

abbrev pub fail_if : Bool → List ValidationError → Result (List ValidationError) (Unit {0})
fail_if verbose_errors [] = ok tt
fail_if verbose_errors (e ∷ errors) = err (report verbose_errors (e ∷ errors))

pub append-nil {ℓ} : {A : Type ℓ} (xs ys : List A) → xs ++ ys ≡ [] → (xs ≡ []) × (ys ≡ [])
append-nil [] ys h = (refl, h)
append-nil (x ∷ xs) ys h = cc

module _ {A : Type 0} where
  pub concat-All : (xss : List (List A)) → concat xss ≡ [] → All (λ xs. xs ≡ []) xss
  unfolding concat
  concat-All [] h = tt
  concat-All (ys ∷ xss) h =
      let (first, rest) = append-nil ys (concat xss) h in (first, concat-All xss rest)

module _ {A B : Type 0} where
  pub flat_map-nil :
      (f : A → List B) (xs : List A) (x : A) → flat_map f xs ≡ [] → In x xs → f x ≡ []
  unfolding flat_map
  flat_map-nil f [] x h m = absurd m
  flat_map-nil f (y ∷ xs) x h (inl e) = rw e (append-nil (f y) (flat_map f xs) h).0
  flat_map-nil f (y ∷ xs) x h (inr m) = flat_map-nil f xs x (append-nil (f y) (flat_map f xs) h).1 m

pub map-nil {ℓ κ} : {A : Type ℓ} {B : Type κ} (f : A → B) (xs : List A) → map f xs ≡ [] → xs ≡ []
map-nil f [] h = refl
map-nil f (x ∷ xs) h = cc

pub add_if-nil {ℓ} : {A : Type ℓ} (b : Bool) (e : A) → add_if b e ≡ [] → b ≡ false
add_if-nil true e h = cc
add_if-nil false e h = refl

pub fail_if-ok :
    (verbose_errors : Bool) (errors : List ValidationError)
    → fail_if verbose_errors errors ≡ ok tt
    → errors ≡ []
fail_if-ok verbose_errors [] h = refl
fail_if-ok verbose_errors (e ∷ errors) h = cc
