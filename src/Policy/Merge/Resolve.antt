-- ===== src/Policy/Merge/Resolve.antt =====
-- The guarantees of `resolveMetadataPolicy` (packages/core/src/metadata-policy/merge.ts).
use mathlib.Core.List.{reverse, reverse-cons, reverse-reverse}
use oidfed.Common.{
  Str, Dict, ◌≡◌, refl, ◌∙◌, true, some, List, [], ◌∷◌, In, inl, inr, append_left, append_right,
  Result, ok, err, >>=-ok,
}
use oidfed.Json.{Json}
use oidfed.Policy.Operators.{OpName, value, other, PolicyOperatorDefinition}
use oidfed.Policy.Names.{OpMap}
use oidfed.Policy.Standard.{operators}
use oidfed.Policy.Custom.{
  Lookup, CustomError, is_standard, validate_custom_operators, build_operator_lookup,
}
use oidfed.Policy.Custom.Laws.{build_operator_lookup-standard}
use oidfed.Policy.Merge.{
  Policy, PolicyClaims, or_empty, merge_types, merge_statements, critical_ops, check_critical,
  from_custom, resolve_metadata_policy,
}
use oidfed.Policy.Merge.Entries.{Values, Found, Values-nil}
use oidfed.Policy.Merge.Operators.{HasStandard, Restricts}
use oidfed.Policy.Merge.Sound.{
  IsSound, IsJsonPolicy, merge_types-Values, merge_types_keep, merge_types_establish,
}

-- The policies of the statements hold JSON values.
abbrev pub AreJsonClaims : List PolicyClaims → Type 0
AreJsonClaims stmts =
    (stmt : PolicyClaims) → In stmt stmts → IsJsonPolicy (or_empty stmt.metadata_policy)

In-reverse : {A : Type 0} (x : A) (xs : List A) → In x xs → In x (reverse xs)
In-reverse x [] m = absurd m
In-reverse x (y ∷ ys) (inl e) = rw reverse-cons (append_right x (reverse ys) (y ∷ []) (inl e))
In-reverse x (y ∷ ys) (inr m) =
    rw reverse-cons (append_left x (reverse ys) (y ∷ []) (In-reverse x ys m))

reverse-In : {A : Type 0} (x : A) (xs : List A) → In x (reverse xs) → In x xs
reverse-In x xs m =
    let back : In x (reverse (reverse xs)) = In-reverse x (reverse xs) m in
    rw reverse-reverse at back

module _ (lookup : Lookup) (standard : HasStandard lookup) where
  merge_statements-Values :
      (known : Policy) (stmts : List PolicyClaims) (known' : Policy)
      → Values (Values (IsSound lookup)) known
      → AreJsonClaims stmts
      → merge_statements lookup known stmts ≡ ok known'
      → Values (Values (IsSound lookup)) known'
  unfolding merge_statements
  merge_statements-Values known [] known' h json e =
      let same : known ≡ known' = cc e in rw (← same) h
  merge_statements-Values known (stmt ∷ stmts) known' h json e =
      let (mid, here, later) =
        >>=-ok (merge_types lookup known (or_empty stmt.metadata_policy)) _ e in
      merge_statements-Values mid stmts known'
        (merge_types-Values lookup standard known (or_empty stmt.metadata_policy) mid h
          (json stmt (inl refl)) here)
        (λ s m. json s (inr m)) later

  module _ (op : OpName) (def : PolicyOperatorDefinition) (v : Json) (std : operators op ≡ some def)
      (entity_type param : Str) where
    merge_statements_keep :
        (known : Policy) (stmts : List PolicyClaims) (known' : Policy)
        → Values (Values (IsSound lookup)) known
        → AreJsonClaims stmts
        → merge_statements lookup known stmts ≡ ok known'
        → Found entity_type (Found param (Restricts op v)) known
        → Found entity_type (Found param (Restricts op v)) known'
    unfolding merge_statements
    merge_statements_keep known [] known' h json e r =
        let same : known ≡ known' = cc e in rw (← same) r
    merge_statements_keep known (stmt ∷ stmts) known' h json e r =
        let policy = or_empty stmt.metadata_policy in
        let (mid, here, later) = >>=-ok (merge_types lookup known policy) _ e in
        let holds = json stmt (inl refl) in
        merge_statements_keep mid stmts known'
          (merge_types-Values lookup standard known policy mid h holds here) (λ s m. json s (inr m))
          later
          (merge_types_keep lookup standard op def v std entity_type param known policy mid h holds
            here r)

    merge_statements_establish :
        (known : Policy) (stmts : List PolicyClaims) (known' : Policy) (stmt : PolicyClaims)
        (params : Dict (OpMap Json)) (ops : OpMap Json)
        → Values (Values (IsSound lookup)) known
        → AreJsonClaims stmts
        → merge_statements lookup known stmts ≡ ok known'
        → In stmt stmts
        → In (entity_type, params) (or_empty stmt.metadata_policy)
        → In (param, ops) params
        → In (op, v) ops
        → Found entity_type (Found param (Restricts op v)) known'
    unfolding merge_statements
    merge_statements_establish known [] known' stmt params ops h json e m n o q = absurd m
    merge_statements_establish known (s ∷ stmts) known' stmt params ops h json e (inl same) n o q =
        let policy = or_empty s.metadata_policy in
        let (mid, here, later) = >>=-ok (merge_types lookup known policy) _ e in
        let holds = json s (inl refl) in
        merge_statements_keep mid stmts known'
          (merge_types-Values lookup standard known policy mid h holds here) (λ t k. json t (inr k))
          later
          (merge_types_establish lookup standard op def v std entity_type param known policy mid
            params ops h holds here (rw same at n) o q)
    merge_statements_establish known (s ∷ stmts) known' stmt params ops h json e (inr m) n o q =
        let policy = or_empty s.metadata_policy in
        let (mid, here, later) = >>=-ok (merge_types lookup known policy) _ e in
        merge_statements_establish mid stmts known' stmt params ops
          (merge_types-Values lookup standard known policy mid h (json s (inl refl)) here)
          (λ t k. json t (inr k)) later m n o q

is_standard_of_operators :
    (op : OpName) (def : PolicyOperatorDefinition) → operators op ≡ some def → is_standard op ≡ true
is_standard_of_operators (other s) def e = cc e
is_standard_of_operators value def e = refl
is_standard_of_operators _ def e = refl

from_custom_inv :
    (r : Result CustomError (Unit {0})) {x : Unit {0}} → from_custom r ≡ ok x → r ≡ ok tt
from_custom_inv (ok x) e = refl
from_custom_inv (err why) e = cc e

-- The steps of a successful resolution.
pub resolve_inv :
    (stmts : List PolicyClaims) (customs : List PolicyOperatorDefinition) (pol : Policy)
    → resolve_metadata_policy stmts customs ≡ ok pol
    → (validate_custom_operators customs ≡ ok tt)
      × (check_critical (build_operator_lookup customs) (critical_ops [] stmts) ≡ ok tt)
      × (merge_statements (build_operator_lookup customs) [] (reverse stmts) ≡ ok pol)
unfolding resolve_metadata_policy
resolve_inv stmts customs pol e =
    let (_, valid, rest) = >>=-ok (from_custom (validate_custom_operators customs)) _ e in
    let (_, critical, merged) =
      >>=-ok (check_critical (build_operator_lookup customs) (critical_ops [] stmts)) _ rest in
    (from_custom_inv (validate_custom_operators customs) valid, critical, merged)

HasStandard-of_valid :
    (customs : List PolicyOperatorDefinition)
    → validate_custom_operators customs ≡ ok tt
    → HasStandard (build_operator_lookup customs)
HasStandard-of_valid customs h op def std =
    build_operator_lookup-standard customs op h (is_standard_of_operators op def std) ∙ std

-- If the policies of a chain's statements resolve, and hold JSON values, then each standard operator
-- of each of these statements has, in the resolved policy and for the same entity type and
-- parameter, a value that restricts at least as much as the statement's own.
pub resolve_metadata_policy-Restricts :
    (stmts : List PolicyClaims) (customs : List PolicyOperatorDefinition) (pol : Policy)
    (stmt : PolicyClaims) (entity_type param : Str) (params : Dict (OpMap Json)) (ops : OpMap Json)
    (op : OpName) (def : PolicyOperatorDefinition) (v : Json)
    → AreJsonClaims stmts
    → resolve_metadata_policy stmts customs ≡ ok pol
    → In stmt stmts
    → In (entity_type, params) (or_empty stmt.metadata_policy)
    → In (param, ops) params
    → In (op, v) ops
    → operators op ≡ some def
    → Found entity_type (Found param (Restricts op v)) pol
resolve_metadata_policy-Restricts stmts customs pol stmt entity_type param params ops op def v json
      e m n o q std =
    let (valid, critical, merged) = resolve_inv stmts customs pol e in
    merge_statements_establish (build_operator_lookup customs) (HasStandard-of_valid customs valid)
      op def v std entity_type param [] (reverse stmts) pol stmt params ops
      (Values-nil (Values (IsSound (build_operator_lookup customs))))
      (λ s k. json s (reverse-In s stmts k)) merged (In-reverse stmt stmts m) n o q

-- If the policies of a chain's statements resolve, and hold JSON values, then every parameter of the
-- resolved policy has standard operators with valid configurations only, and any two of its
-- operators that have definitions combine by both definitions.
pub resolve_metadata_policy-IsSound :
    (stmts : List PolicyClaims) (customs : List PolicyOperatorDefinition) (pol : Policy)
    → AreJsonClaims stmts
    → resolve_metadata_policy stmts customs ≡ ok pol
    → Values (Values (IsSound (build_operator_lookup customs))) pol
resolve_metadata_policy-IsSound stmts customs pol json e =
    let (valid, critical, merged) = resolve_inv stmts customs pol e in
    merge_statements-Values (build_operator_lookup customs) (HasStandard-of_valid customs valid) []
      (reverse stmts) pol (Values-nil (Values (IsSound (build_operator_lookup customs))))
      (λ s k. json s (reverse-In s stmts k)) merged
