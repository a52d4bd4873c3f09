-- ===== src/Chain/Metadata/Pending.antt =====
-- The claims that the application of policies in Chain/Metadata leaves pending.
use oidfed.Common.{◌≡◌, refl, Bool-cases, List, [], ◌∷◌, map, In, inl, inr, none, ok, err, Result}
use oidfed.Policy.Operators.{PolicyOperatorDefinition}
use oidfed.Policy.Merge.{Policy, PolicyError, resolve_metadata_policy}
use oidfed.Policy.Apply.{Metadata, ApplyError, apply_metadata_policy}
use oidfed.Chain.Values.{Platform}
use oidfed.Chain.Links.{Link}
use oidfed.Chain.Metadata.{
  MetadataStage, ContextualMetadataClaim, is_pending, without_policy, defer, add_context,
  policy_claims, apply_policy, apply_resolved, resolve_policies, resolve_metadata,
}

defer-In :
    (metadata : Metadata) (claim : ContextualMetadataClaim) (claims : List ContextualMetadataClaim)
    (policy : Policy)
    → In claim (defer metadata claims policy).1
    → In claim claims
unfolding defer
defer-In metadata claim [] policy m = absurd m
defer-In metadata claim (c ∷ claims) policy m = elim (Bool-cases (is_pending metadata policy c)) [
  | inl e ↦ elim (rw e at m) [
    | inl same ↦ inl same
    | inr n ↦ inr (defer-In metadata claim claims (without_policy policy c) n)
  ]
  | inr e ↦ inr (defer-In metadata claim claims policy (rw e at m))
]

module _ (platform : Platform) (customs : List PolicyOperatorDefinition) where
  apply_policy-pending :
      (metadata : Metadata) (policy : Policy) (pending : List ContextualMetadataClaim)
      (r : Result ApplyError Metadata)
      → apply_metadata_policy platform.to_string metadata policy none customs ≡ r
      → (apply_policy platform customs metadata policy pending).pending ≡ pending
  unfolding apply_policy
  apply_policy-pending metadata policy pending (err e) h = rw (h, apply_policy) refl
  apply_policy-pending metadata policy pending (ok resolved) h = rw (h, apply_policy) refl

  apply_resolved-In :
      (stage : MetadataStage) (metadata : Metadata) (policy : Policy)
      (claim : ContextualMetadataClaim)
      → In claim (apply_resolved platform customs stage metadata policy).pending
      → In claim stage.deferred
  unfolding apply_resolved
  apply_resolved-In stage metadata [] claim m = absurd m
  apply_resolved-In stage metadata (entry ∷ policy) claim m =
      defer-In (add_context stage.context metadata) claim stage.deferred (entry ∷ policy)
        (rw (apply_policy-pending _ _ _ _ refl) at m)

  resolve_policies-In :
      (stage : MetadataStage) (metadata : Metadata) (links : List Link)
      (claim : ContextualMetadataClaim) (r : Result PolicyError Policy)
      → resolve_metadata_policy (map policy_claims links) customs ≡ r
      → In claim (resolve_policies platform customs stage metadata links).pending
      → In claim stage.deferred
  unfolding resolve_policies
  resolve_policies-In stage metadata links claim (err e) resolved m =
      absurd (rw (resolved, resolve_policies) at m)
  resolve_policies-In stage metadata links claim (ok policy) resolved m =
      apply_resolved-In stage metadata policy claim (rw (resolved, resolve_policies) at m)

  -- A claim that is pending was deferred by the caller.
  pub resolve_metadata-In :
      (stage : MetadataStage) (metadata : Metadata) (links : List Link)
      (claim : ContextualMetadataClaim)
      → In claim (resolve_metadata platform customs stage metadata links).pending
      → In claim stage.deferred
  unfolding resolve_metadata
  resolve_metadata-In stage metadata [] claim m = absurd m
  resolve_metadata-In stage metadata (link ∷ links) claim m =
      resolve_policies-In stage metadata (link ∷ links) claim _ refl m
