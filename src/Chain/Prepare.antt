-- ===== src/Chain/Prepare.antt =====
-- `prepareTrustChainValidation` and `completeTrustChainValidation` of
-- packages/core/src/trust-chain/validate.ts. What the `WeakMap` holds of a preparation is a value
-- beside it; the abort signal and the clock are read at each test.
pub mod Laws
use oidfed.Common.{
  ℕ, Str, any, all, leb, str_eq, Bool, true, false, not, ◌&&◌, ◌||◌, Option, none, some, List, [],
  Result, ok, err, ◌>>=◌,
}
use oidfed.Json.{Json}
use oidfed.Chain.Values.{Platform, is_json_object, as_object}
use oidfed.Chain.Statement.{ValidationOptions}
use oidfed.Chain.Links.{TrustAnchorSet}
use oidfed.Chain.Metadata.{ContextualMetadataClaim, metadata_of}
use oidfed.Chain.Validate.{Failed, Validated, ValidatedTrustChain, validate_trust_chain_impl}

pub data StageError : Type 0 where
  cancelled no_context unusable unreserved : StageError
  refused : Failed → StageError

pub record Preparation : Type 0 where
  pub chain : List Str
  pub anchors : TrustAnchorSet
  pub options : ValidationOptions
  pub pending : List ContextualMetadataClaim
  pub expires_at : ℕ

abbrev pub stop_if : Bool → StageError → Result StageError (Unit {0})
stop_if true e = err e
stop_if false e = ok tt

abbrev pub from_validation : Result Failed Validated → Result StageError Validated
from_validation (ok validated) = ok validated
from_validation (err errors) = err (refused errors)

abbrev pub is_pending_claim : List ContextualMetadataClaim → Str → Str → Bool
is_pending_claim pending entity_type parameter =
    any (λ claim. str_eq claim.entity_type entity_type && str_eq claim.parameter parameter) pending

-- An entry of the context: an object of parameters that are pending.
unfoldable pub is_reserved : List ContextualMetadataClaim → Str × Json → Bool
is_reserved pending (entity_type, parameters) =
    is_json_object parameters
    && all (λ (e : Str × Json). is_pending_claim pending entity_type e.0)
        (as_object (some parameters))

abbrev pub at_time : ValidationOptions → ℕ → ValidationOptions
at_time options now' = record options { now = now' }

module _ (platform : Platform) where
  -- The signal before and after the validation.
  unfoldable pub prepare_trust_chain_validation :
      List Str
      → TrustAnchorSet
      → ValidationOptions
      → List ContextualMetadataClaim
      → Bool
      → Bool
      → Result StageError (ValidatedTrustChain × Preparation)
  prepare_trust_chain_validation chain anchors options deferred_claims aborted aborted_later = do
    _ ← stop_if aborted cancelled
    result ← from_validation (
        validate_trust_chain_impl platform options anchors true
          (record { deferred = deferred_claims; context = [] }) chain)
    _ ← stop_if aborted_later cancelled
    ok (
      result.chain,
      record {
        chain = chain;
        anchors = anchors;
        options = options;
        pending = result.pending;
        expires_at = result.chain.expires_at;
      },
    )

  abbrev pub found : Option Preparation → Result StageError Preparation
  found none = err unusable
  found (some saved) = ok saved

  unfoldable pub complete_trust_chain_validation :
      Option Preparation → Json → ℕ → Bool → Bool → Result StageError ValidatedTrustChain
  complete_trust_chain_validation known context now aborted aborted_later = do
    _ ← stop_if (not (is_json_object context)) no_context
    saved ← found known
    _ ← stop_if (aborted || leb saved.expires_at now) unusable
    _ ← stop_if (not (all (is_reserved saved.pending) (as_object (some context)))) unreserved
    result ← from_validation (
        validate_trust_chain_impl platform (at_time saved.options now) saved.anchors true
          (record { deferred = []; context = metadata_of (some context) }) saved.chain)
    _ ← stop_if aborted_later cancelled
    ok result.chain
