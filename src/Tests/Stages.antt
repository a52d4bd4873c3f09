-- ===== src/Tests/Stages.antt =====
-- A chain that is validated in two stages, at concrete inputs.
use oidfed.Common.{true, ◌≡◌, refl, false, some, ok, get, str_eq, ◌<◌}
use oidfed.Json.{entries, fields}
use oidfed.Chain.Validate.{validate_trust_chain_impl, Validated, calculate_chain_expiration}
use oidfed.Chain.Validate.Laws.{IsAuthentic}
use oidfed.Chain.Prepare.{
  Preparation, at_time, is_reserved, prepare_trust_chain_validation,
  complete_trust_chain_validation,
}
use oidfed.Chain.Prepare.Laws.{
  completion, IsReserved, complete_trust_chain_validation-prepare_trust_chain_validation,
}
use oidfed.Tests.Chains.{options, anchors}
use oidfed.Tests.Governed.{
  governing, governed_tokens, governed_at, governed_valid, evaluated, deferred, opening, closing,
  context,
}

abbrev saved : Preparation
saved = record {
  chain = governed_tokens;
  anchors = anchors;
  options = options;
  pending = (governed_at opening).pending;
  expires_at = (governed_at opening).chain.expires_at;
}

prepares :
    prepare_trust_chain_validation governing governed_tokens anchors options deferred false false
    ≡ ok ((governed_at opening).chain, saved)
unfolding prepare_trust_chain_validation
prepares = rw (governed_valid opening evaluated.1) refl

completes :
    complete_trust_chain_validation governing (some saved) context 5 false false
    ≡ ok (governed_at closing).chain
unfolding complete_trust_chain_validation is_reserved fields entries str_eq
    calculate_chain_expiration get
completes = rw (evaluated.3, governed_valid closing evaluated.2) refl

complete_trust_chain_validation-prepare_trust_chain_validation_example :
    (5 < (governed_at opening).chain.expires_at)
    × IsReserved deferred context
    × ((validated : Validated) × (validate_trust_chain_impl governing
            (at_time options 5)
            anchors
            true
            (completion context)
            governed_tokens
          ≡ ok validated)
        × IsAuthentic governing (at_time options 5) anchors governed_tokens validated
        × (validated.chain ≡ (governed_at closing).chain))
complete_trust_chain_validation-prepare_trust_chain_validation_example =
    complete_trust_chain_validation-prepare_trust_chain_validation governing governed_tokens anchors
      options deferred false false (governed_at opening).chain saved context 5 false false
      (governed_at closing).chain prepares completes
