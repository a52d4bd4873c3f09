-- ===== src/Policy.antt =====
-- packages/core/src/metadata-policy: the operators, their merge over a trust chain, and their
-- application to metadata.
pub mod Arrays
pub mod Operators
pub mod Standard
pub mod Names
pub mod Custom
pub mod Merge
pub mod Scope
pub mod Apply
pub mod Binding
pub mod Whole
