-- ===== src/Chain.antt =====
-- packages/core/src/trust-chain, with jose and jwks beside it: the validation of a trust chain, the
-- selection among chains, and the search for them.
pub mod Values
pub mod Keys
pub mod Signatures
pub mod Errors
pub mod Shape
pub mod Statement
pub mod Marks
pub mod Links
pub mod Metadata
pub mod Duplicates
pub mod Validate
pub mod Prepare
pub mod Select
pub mod Resolve
pub mod Refresh
pub mod Limiter
