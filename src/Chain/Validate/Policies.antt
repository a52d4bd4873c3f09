-- ===== src/Chain/Validate/Policies.antt =====
-- The metadata that a validated chain carries, against the policies of its statements.
use oidfed.Common.{Str, Dict, get, ◌≡◌, Bool, false, some, List, [], map, In, ok}
use oidfed.Json.{Json}
use oidfed.Policy.Operators.{OpName, PolicyOperatorDefinition}
use oidfed.Policy.Names.{OpMap}
use oidfed.Policy.Standard.{operators}
use oidfed.Policy.Merge.{or_empty}
use oidfed.Policy.Merge.Resolve.{AreJsonClaims}
use oidfed.Policy.Apply.{read, is_scope_text}
use oidfed.Policy.Apply.Checks.{Satisfies, IsCheck}
use oidfed.Chain.Values.{Platform}
use oidfed.Chain.Statement.{ValidationOptions}
use oidfed.Chain.Links.{Link, TrustAnchorSet}
use oidfed.Chain.Metadata.{policy_claims}
use oidfed.Chain.Metadata.Policies.{resolve_metadata-Satisfies}
use oidfed.Chain.Validate.{
  Validated, no_stage, check_parsed, evaluate, resolution, metadata_before_policy,
  subordinate_statements, validate_trust_chain_impl,
}
use oidfed.Chain.Validate.Laws.{validate-phases, evaluate-ok}
use oidfed.Chain.Validate.Outcome.{no_errors}

module _ (platform : Platform) (options : ValidationOptions) (anchors : TrustAnchorSet) where
  resolution-Satisfies :
      (leaf : Link) (links : List Link) (link : Link) (entity_type param : Str)
      (params : Dict (OpMap Json)) (ops : OpMap Json) (op : OpName) (def : PolicyOperatorDefinition)
      (v : Json)
      → options.custom_policy_operators ≡ []
      → AreJsonClaims (map policy_claims (subordinate_statements leaf links))
      → In link (subordinate_statements leaf links)
      → In (entity_type, params) (or_empty (policy_claims link).metadata_policy)
      → In (param, ops) params
      → In (op, v) ops
      → operators op ≡ some def
      → IsCheck op
      → is_scope_text param (
          read param (
            or_empty
              (get entity_type (metadata_before_policy platform options anchors leaf links))))
        ≡ false
      → (resolution platform options anchors no_stage leaf links).errors ≡ []
      → Satisfies op v (
          read param (
            or_empty
              (get entity_type (resolution platform options anchors no_stage leaf links).metadata)))
  resolution-Satisfies leaf links link entity_type param params ops op def v standard json m n o q
        std c text h =
      rw standard (
        resolve_metadata-Satisfies platform
          (metadata_before_policy platform options anchors leaf links)
          (subordinate_statements leaf links) link entity_type param params ops op def v json m n o
          q std c text (rw standard at h))

  -- In a chain that validates with the standard operators, the metadata of the result meets the
  -- demand of each checking operator that the policy of any subordinate statement of the chain
  -- states, where the policies hold JSON values and the parameter's value before was no scope text:
  -- no statement of the chain can relax what another demands.
  pub validate-Satisfies :
      (verify_marks : Bool) (chain : List Str) (validated : Validated) (leaf : Link)
      (links : List Link) (link : Link) (entity_type param : Str) (params : Dict (OpMap Json))
      (ops : OpMap Json) (op : OpName) (def : PolicyOperatorDefinition) (v : Json)
      → options.custom_policy_operators ≡ []
      → validate_trust_chain_impl platform options anchors verify_marks no_stage chain
        ≡ ok validated
      → check_parsed platform options anchors chain ≡ ok (leaf, links)
      → AreJsonClaims (map policy_claims (subordinate_statements leaf links))
      → In link (subordinate_statements leaf links)
      → In (entity_type, params) (or_empty (policy_claims link).metadata_policy)
      → In (param, ops) params
      → In (op, v) ops
      → operators op ≡ some def
      → IsCheck op
      → is_scope_text param (
          read param (
            or_empty
              (get entity_type (metadata_before_policy platform options anchors leaf links))))
        ≡ false
      → Satisfies op v (read param (or_empty (get entity_type validated.chain.resolved_metadata)))
  validate-Satisfies verify_marks chain validated leaf links link entity_type param params ops op
        def v standard h parsed json m n o q std c text =
      let (leaf', links', parsed', _, evaluated) =
        validate-phases platform options anchors verify_marks no_stage chain validated h in
      let same_leaf : leaf' ≡ leaf = cc (parsed', parsed) in
      let same_links : links' ≡ links = cc (parsed', parsed) in
      let here : evaluate platform options anchors verify_marks no_stage leaf links ≡ ok validated =
        rw (same_leaf, same_links) at evaluated in
      let (none_found, result) =
        evaluate-ok platform options anchors verify_marks no_stage leaf links validated here in
      let good =
        resolution-Satisfies leaf links link entity_type param params ops op def v standard json m n
          o q std c text
          (no_errors platform options anchors verify_marks no_stage leaf links none_found).1 in
      rw (← result) good
