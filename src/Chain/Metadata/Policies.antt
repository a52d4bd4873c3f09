-- ===== src/Chain/Metadata/Policies.antt =====
-- The metadata policies of a chain that validates.
use oidfed.Common.{
  Str, Dict, get, ◌≡◌, refl, false, none, some, List, [], ◌∷◌, map, In, inl, inr, Result, ok, err,
}
use oidfed.Json.{Json}
use oidfed.Policy.Operators.{OpName, PolicyOperatorDefinition}
use oidfed.Policy.Names.{OpMap}
use oidfed.Policy.Standard.{operators}
use oidfed.Policy.Merge.{Policy, PolicyError, or_empty, resolve_metadata_policy}
use oidfed.Policy.Merge.Resolve.{AreJsonClaims, resolve_metadata_policy-Restricts}
use oidfed.Policy.Apply.{Metadata, ApplyError, read, is_scope_text, apply_metadata_policy}
use oidfed.Policy.Apply.Checks.{Satisfies, IsCheck}
use oidfed.Policy.Whole.{whole_policy-Satisfies}
use oidfed.Chain.Values.{Platform}
use oidfed.Chain.Links.{Link}
use oidfed.Chain.Metadata.{
  policy_claims, resolve_metadata, resolve_policies, apply_resolved, apply_policy, add_context,
  defer,
}
use oidfed.Chain.Validate.{no_stage}

In-map : {A B : Type 0} (f : A → B) (x : A) (xs : List A) → In x xs → In (f x) (map f xs)
In-map f x [] m = absurd m
In-map f x (y ∷ xs) (inl e) = inl (rw e refl)
In-map f x (y ∷ xs) (inr m) = inr (In-map f x xs m)

module _ (platform : Platform) (metadata : Metadata) (links : List Link) (link : Link)
    (entity_type param : Str) (params : Dict (OpMap Json)) (ops : OpMap Json) (op : OpName)
    (def : PolicyOperatorDefinition) (v : Json) (json : AreJsonClaims (map policy_claims links))
    (m : In link links)
    (n : In (entity_type, params) (or_empty (policy_claims link).metadata_policy))
    (o : In (param, ops) params) (q : In (op, v) ops) (std : operators op ≡ some def)
    (c : IsCheck op)
    (text : is_scope_text param (read param (or_empty (get entity_type metadata))) ≡ false) where
  applied-Satisfies :
      (policy : Policy) (r : Result ApplyError Metadata)
      → resolve_metadata_policy (map policy_claims links) [] ≡ ok policy
      → apply_metadata_policy platform.to_string metadata policy none [] ≡ r
      → (apply_policy platform [] metadata policy []).errors ≡ []
      → Satisfies op v (
          read param
            (or_empty (get entity_type (apply_policy platform [] metadata policy []).metadata)))
  unfolding apply_policy
  applied-Satisfies policy (err e) resolved ran h = absurd (cc (rw (ran, apply_policy) at h))
  applied-Satisfies policy (ok m') resolved ran h =
      rw (ran, apply_policy)
        (whole_policy-Satisfies platform.to_string (map policy_claims links) policy metadata m'
          (policy_claims link) entity_type param params ops op def v json resolved ran
          (In-map policy_claims link links m) n o q std c text)

  resolved-Satisfies :
      (r : Result PolicyError Policy)
      → resolve_metadata_policy (map policy_claims links) [] ≡ r
      → (resolve_policies platform [] no_stage metadata links).errors ≡ []
      → Satisfies op v (
          read param (
            or_empty
              (get entity_type (resolve_policies platform [] no_stage metadata links).metadata)))
  unfolding resolve_policies apply_resolved add_context defer get
  resolved-Satisfies (err e) resolved h = absurd (cc (rw (resolved, resolve_policies) at h))
  resolved-Satisfies (ok []) resolved h =
      let (policies, at_type, _) =
        resolve_metadata_policy-Restricts (map policy_claims links) [] [] (policy_claims link)
          entity_type param params ops op def v json resolved (In-map policy_claims link links m) n
          o q std in
      absurd (cc at_type)
  resolved-Satisfies (ok (entry ∷ policy)) resolved h =
      rw (resolved, resolve_policies)
        (applied-Satisfies (entry ∷ policy) _ resolved refl (rw (resolved, resolve_policies) at h))

-- The same of the subordinate statements of a chain.
pub resolve_metadata-Satisfies :
    (platform : Platform) (metadata : Metadata) (links : List Link) (link : Link)
    (entity_type param : Str) (params : Dict (OpMap Json)) (ops : OpMap Json) (op : OpName)
    (def : PolicyOperatorDefinition) (v : Json)
    → AreJsonClaims (map policy_claims links)
    → In link links
    → In (entity_type, params) (or_empty (policy_claims link).metadata_policy)
    → In (param, ops) params
    → In (op, v) ops
    → operators op ≡ some def
    → IsCheck op
    → is_scope_text param (read param (or_empty (get entity_type metadata))) ≡ false
    → (resolve_metadata platform [] no_stage metadata links).errors ≡ []
    → Satisfies op v (
        read param (
          or_empty
            (get entity_type (resolve_metadata platform [] no_stage metadata links).metadata)))
unfolding resolve_metadata
resolve_metadata-Satisfies platform metadata [] link entity_type param params ops op def v json m n
      o q std c text h =
    absurd m
resolve_metadata-Satisfies platform metadata (first ∷ links) link entity_type param params ops op
      def v json m n o q std c text h =
    resolved-Satisfies platform metadata (first ∷ links) link entity_type param params ops op def v
      json m n o q std c text _ refl h
