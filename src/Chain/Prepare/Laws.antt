-- ===== src/Chain/Prepare/Laws.antt =====
-- The two stages of a validation in Chain/Prepare together.
use oidfed.Common.{
  ap, sym, ◌∙◌, ◌<◌, any-witness, str_eq→eq, ℕ, Str, ◌≡◌, refl, Bool, true, false, not, ◌||◌, all,
  all_at, leb, some, List, [], In, Result, ok, err, >>=-ok, arith,
}
use oidfed.Json.{Json}
use oidfed.Chain.Values.{Platform, is_json_object, as_object}
use oidfed.Chain.Statement.{ValidationOptions}
use oidfed.Chain.Links.{TrustAnchorSet}
use oidfed.Chain.Metadata.{MetadataStage, ContextualMetadataClaim, metadata_of}
use oidfed.Chain.Validate.{
  Failed, Validated, ValidatedTrustChain, validate_trust_chain_impl, metadata_before_policy,
  subordinate_statements,
}
use oidfed.Chain.Metadata.Pending.{resolve_metadata-In}
use oidfed.Chain.Validate.Laws.{IsAuthentic, validate-phases, evaluate-ok, validate-IsAuthentic}
use oidfed.Chain.Prepare.{
  StageError, no_context, unusable, unreserved, cancelled, Preparation, stop_if, from_validation,
  is_pending_claim, is_reserved, at_time, prepare_trust_chain_validation,
  complete_trust_chain_validation,
}

stop_if-ok : (b : Bool) (e : StageError) {u : Unit {0}} → stop_if b e ≡ ok u → b ≡ false
stop_if-ok true e h = absurd (cc h)
stop_if-ok false e h = refl

from_validation-ok :
    (result : Result Failed Validated) (v : Validated)
    → from_validation result ≡ ok v
    → result ≡ ok v
from_validation-ok (ok w) v h = cc h
from_validation-ok (err errors) v h = absurd (cc h)

ok-injective :
    {Error Value : Type 0} {a b : Value} → ◌≡◌ {A = Result Error Value} (ok a) (ok b) → a ≡ b
ok-injective h = cc h

module _ (platform : Platform) where
  validate-pending :
      (anchors : TrustAnchorSet) (options : ValidationOptions) (stage : MetadataStage)
      (chain : List Str) (validated : Validated) (claim : ContextualMetadataClaim)
      → validate_trust_chain_impl platform options anchors true stage chain ≡ ok validated
      → In claim validated.pending
      → In claim stage.deferred
  validate-pending anchors options stage chain validated claim h m =
      let (leaf, links, _, _, evaluated) =
        validate-phases platform options anchors true stage chain validated h in
      let (_, same) =
        evaluate-ok platform options anchors true stage leaf links validated evaluated in
      resolve_metadata-In platform options.custom_policy_operators stage
        (metadata_before_policy platform options anchors leaf links)
        (subordinate_statements leaf links) claim (rw (← same) at m)

  -- What a preparation keeps for its completion.
  record IsSaved (chain : List Str) (anchors : TrustAnchorSet) (options : ValidationOptions)
      (deferred : List ContextualMetadataClaim) (prepared : ValidatedTrustChain)
      (saved : Preparation) : Type 0 where
    same_chain : saved.chain ≡ chain
    same_anchors : saved.anchors ≡ anchors
    same_options : saved.options ≡ options
    same_expiry : saved.expires_at ≡ prepared.expires_at
    were_deferred : (claim : ContextualMetadataClaim) → In claim saved.pending → In claim deferred

  prepare_trust_chain_validation-IsSaved :
      (chain : List Str) (anchors : TrustAnchorSet) (options : ValidationOptions)
      (deferred : List ContextualMetadataClaim) (aborted aborted_later : Bool)
      (prepared : ValidatedTrustChain) (saved : Preparation)
      → prepare_trust_chain_validation platform chain anchors options deferred aborted aborted_later
        ≡ ok (prepared, saved)
      → IsSaved chain anchors options deferred prepared saved
  unfolding prepare_trust_chain_validation
  prepare_trust_chain_validation-IsSaved chain anchors options deferred aborted aborted_later
        prepared saved h =
      let stage : MetadataStage = record { deferred = deferred; context = [] } in
      let (_, _, h1) = >>=-ok (stop_if aborted cancelled) _ h in
      let (result, e2, h2) =
        >>=-ok
          (from_validation (validate_trust_chain_impl platform options anchors true stage chain)) _
          h1 in
      let (_, _, h3) = >>=-ok (stop_if aborted_later cancelled) _ h2 in
      let same = ok-injective h3 in
      let is_saved = ap (λ x. x.1) (sym same) in
      record {
        same_chain = ap (λ s. s.chain) is_saved;
        same_anchors = ap (λ s. s.anchors) is_saved;
        same_options = ap (λ s. s.options) is_saved;
        same_expiry = ap (λ s. s.expires_at) is_saved ∙ ap (λ x. x.0.expires_at) same;
        were_deferred = λ claim m.
            validate-pending anchors options stage chain result claim
              (from_validation-ok _ result e2) (rw (ap (λ s. s.pending) is_saved) at m);
      }

  module _ (saved : Preparation) (context : Json) (now : ℕ) (aborted aborted_later : Bool)
      (completed : ValidatedTrustChain) where
    -- What the completion of a saved preparation has tested and validated.
    complete_trust_chain_validation_phases :
        complete_trust_chain_validation platform (some saved) context now aborted aborted_later
          ≡ ok completed
        → (is_json_object context ≡ true)
          × (now < saved.expires_at)
          × (all (is_reserved saved.pending) (as_object (some context)) ≡ true)
          × ((validated : Validated) × (validate_trust_chain_impl platform
                  (at_time saved.options now)
                  saved.anchors
                  true
                  (record { deferred = []; context = metadata_of (some context) })
                  saved.chain
                ≡ ok validated)
              × (validated.chain ≡ completed))
    unfolding complete_trust_chain_validation
    complete_trust_chain_validation_phases h =
        let stage : MetadataStage = record {
          deferred = [];
          context = metadata_of (some context);
        } in
        let (_, e0, h0) = >>=-ok (stop_if (not (is_json_object context)) no_context) _ h in
        let (_, e1, h1) = >>=-ok (stop_if (aborted || leb saved.expires_at now) unusable) _ h0 in
        let (_, e2, h2) =
          >>=-ok
            (stop_if (not (all (is_reserved saved.pending) (as_object (some context)))) unreserved)
            _ h1 in
        let (result, e3, h3) =
          >>=-ok
            (from_validation (
              validate_trust_chain_impl platform (at_time saved.options now) saved.anchors true
                stage saved.chain))
            _ h2 in
        let (_, _, h4) = >>=-ok (stop_if aborted_later cancelled) _ h3 in
        let not_expired = stop_if-ok _ _ e1 in
        let an_object = stop_if-ok _ _ e0 in
        let reserved = stop_if-ok _ _ e2 in
        (ground arith, ground arith, ground arith, (result, from_validation-ok _ result e3, cc h4))

-- Each parameter of the context was left open by a claim.
abbrev pub IsReserved : List ContextualMetadataClaim → Json → Type 0
IsReserved pending context =
    (entity_type parameter : Str) (parameters value : Json)
    → In (entity_type, parameters) (as_object (some context))
    → In (parameter, value) (as_object (some parameters))
    → (claim : ContextualMetadataClaim) × In claim pending
      × (claim.entity_type ≡ entity_type)
      × (claim.parameter ≡ parameter)

is_reserved-IsReserved :
    (pending : List ContextualMetadataClaim) (context : Json)
    → all (is_reserved pending) (as_object (some context)) ≡ true
    → IsReserved pending context
unfolding is_reserved
is_reserved-IsReserved pending context h entity_type parameter parameters value m n =
    let here : is_reserved pending (entity_type, parameters) ≡ true =
      all_at (is_reserved pending) (entity_type, parameters) _ h m in
    let inside : all (λ (e : Str × Json). is_pending_claim pending entity_type e.0)
          (as_object (some parameters))
        ≡ true =
      ground (arith, here) in
    let named : is_pending_claim pending entity_type parameter ≡ true =
      all_at (λ (e : Str × Json). is_pending_claim pending entity_type e.0) (parameter, value) _
        inside n in
    let (claim, k, both) = any-witness _ pending named in
    (
      claim,
      k,
      str_eq→eq claim.entity_type entity_type (ground (arith, both)),
      str_eq→eq claim.parameter parameter (ground (arith, both)),
    )

-- The stage of a completion: nothing is deferred, and the context fills in.
abbrev pub completion : Json → MetadataStage
completion context = record { deferred = []; context = metadata_of (some context) }

-- If a chain was prepared and its preparation is completed with a context, then the preparation had
-- not expired; every parameter that the context gives is of a claim that the caller of the
-- preparation deferred; and the result is the chain that the validation with trust marks comes to,
-- at the later time and with the context, for the same tokens, the same trust anchors and the
-- same options otherwise; and it is authentic.
pub complete_trust_chain_validation-prepare_trust_chain_validation :
    (platform : Platform) (chain : List Str) (anchors : TrustAnchorSet)
    (options : ValidationOptions) (deferred : List ContextualMetadataClaim)
    (stopped stopped_later : Bool) (prepared : ValidatedTrustChain) (saved : Preparation)
    (context : Json) (now : ℕ) (aborted aborted_later : Bool) (completed : ValidatedTrustChain)
    → prepare_trust_chain_validation platform chain anchors options deferred stopped stopped_later
      ≡ ok (prepared, saved)
    → complete_trust_chain_validation platform (some saved) context now aborted aborted_later
      ≡ ok completed
    → (now < prepared.expires_at)
      × IsReserved deferred context
      × ((validated : Validated) × (validate_trust_chain_impl platform
              (at_time options now)
              anchors
              true
              (completion context)
              chain
            ≡ ok validated)
          × IsAuthentic platform (at_time options now) anchors chain validated
          × (validated.chain ≡ completed))
complete_trust_chain_validation-prepare_trust_chain_validation platform chain anchors options
      deferred stopped stopped_later prepared saved context now aborted aborted_later completed p
      c =
    let kept =
      prepare_trust_chain_validation-IsSaved platform chain anchors options deferred stopped
        stopped_later prepared saved p in
    let (_, in_time, reserved, (validated, valid, result)) =
      complete_trust_chain_validation_phases platform saved context now aborted aborted_later
        completed c in
    let authentic =
      validate-IsAuthentic platform (at_time saved.options now) saved.anchors true _ saved.chain
        validated valid in
    let pending = is_reserved-IsReserved saved.pending context reserved in
    (
      rw (← kept.same_expiry) in_time,
      (λ entity_type parameter parameters value m n.
          let (claim, k, same_type, same_parameter) =
            pending entity_type parameter parameters value m n in
          (claim, kept.were_deferred claim k, same_type, same_parameter)),
      (
        validated,
        rw (← kept.same_chain, ← kept.same_anchors, ← kept.same_options) valid,
        rw (← kept.same_chain, ← kept.same_anchors, ← kept.same_options) authentic,
        result,
      ),
    )
