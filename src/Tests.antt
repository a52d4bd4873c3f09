-- ===== src/Tests.antt =====
-- The theorems at concrete inputs.
mod Stores
mod Registry
mod Policies
mod Operators
mod Chains
mod Searches
mod Marks
mod Governed
mod Stages
