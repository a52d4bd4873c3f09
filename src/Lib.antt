-- ===== src/Lib.antt =====
-- A model of the logic of oidfed, an OpenID Federation library in TypeScript, with theorems about it.
--
-- The parts, with the code that each file is about:
--   Json, Json/Equality: JSON values and `deepEqual`; packages/core/src/metadata-policy/operators.ts.
--   Policy/Operators, Policy/Arrays, Policy/Standard: the operators' types, the array helpers and the
--     seven standard operators; the same file, and packages/core/src/types.ts.
--   Policy/Names: operator names as the keys of an object.
--   Policy/Custom: packages/core/src/metadata-policy/custom-operators.ts.
--   Policy/Merge: `resolveMetadataPolicy` of packages/core/src/metadata-policy/merge.ts.
--   Policy/Apply, Policy/Scope: packages/core/src/metadata-policy/apply.ts.
--   Policy/Binding, Policy/Whole: resolution and application together, of one parameter and of all.
--   MetadataValues: packages/core/src/metadata-values.ts.
--   Constraints: packages/core/src/constraints/index.ts.
--   Cache: `MemoryCache` of packages/core/src/cache/index.ts.
--   Replay: packages/core/src/memory-replay-store.ts and replay-store.ts.
--   Authority/Marks, Authority/Subordinates, Authority/Events:
--     packages/authority/src/storage/memory.ts and types.ts.
--   Authority/Shape: packages/authority/src/utils/subordinate-statement-shape.ts.
--   Authority/Order: the comparison of strings and sorting.
--   Chain/Values: the tests of JavaScript on claims, and the functions of libraries (`Platform`).
--   Chain/Keys: packages/core/src/jose/keys.ts and packages/core/src/jwks/use-requirement.ts.
--   Chain/Signatures: packages/core/src/jose/verify.ts.
--   Chain/Errors: `ValidationError` of packages/core/src/types.ts, and how errors are reported.
--   Chain/Shape, Chain/Statement, Chain/Links, Chain/Metadata, Chain/Duplicates, Chain/Validate,
--     Chain/Prepare, Chain/Select: packages/core/src/trust-chain/validate.ts, in the order in which a
--     chain is validated: the shape of a statement, the checks of one statement, those between
--     statements, the metadata with its constraints and policies, the scanner for duplicate members,
--     the whole, the validation in stages, and the choice among validated chains.
--   Chain/Marks: packages/core/src/trust-marks/index.ts.
--   Chain/Resolve, Chain/Limiter: packages/core/src/trust-chain/resolve.ts.
--   Chain/Refresh: packages/core/src/trust-chain/refresh.ts.
--   Common: shared types and lemmas; Common/Objects: the names that objects inherit.
--   Tests: the theorems at concrete inputs.
--
-- How the parts interact: a chain's statements carry policies, which Policy/Merge merges from the
-- superior to the leaf, by the operators of Policy/Standard and of Policy/Custom; Policy/Apply
-- applies the result to an entity's metadata. Constraints limit the chain itself. Chain/Resolve
-- finds the chains from an entity to the trust anchors, Chain/Validate checks one: each statement
-- for itself (Chain/Statement, with Chain/Shape and Chain/Duplicates), the links between them and
-- the signatures (Chain/Links, by Chain/Signatures and Chain/Keys), then constraints and policies
-- (Chain/Metadata) and trust marks (Chain/Marks). Chain/Refresh does both again, and Chain/Select
-- chooses among the results. The authority keeps its subordinates and the trust marks it issued;
-- what it stores is validated by the rules of Authority/Shape. Cache and Replay serve both sides.
--
-- Conventions: functions keep their names, in snake_case. A string is the sequence of its UTF-16
-- code units. A number of JSON is a code of its value, which is compared for equality; where the
-- code orders numbers (times, limits), `reading` says what number a code is. Other numbers (times,
-- limits, lengths, orders) are natural. An object or a `Map` is a list of entries in the order of
-- insertion; the keys of an object are taken to be no names of `Object.prototype`, no text of an
-- array index and not `length`. Where a text that is no key of the object is looked up and the code
-- means to refuse it, the names that every object inherits (Common/Objects) are modelled: in the
-- check of critical operators, of `crit`, and of the type of a trust mark. A `Result` is ok or err,
-- an error text is a constructor with what the text shows, and an exception is an error as well; in
-- Chain an error keeps its code, the number of the check, and the place, and drops the message. A
-- clock is an argument, read once; an asynchronous method runs without interruption, as it does
-- between two `await`s, except the search of Chain/Resolve, which is a step relation over every
-- order in which the fetches are answered, and the limiter, which is a sequence of operations. A
-- cast of a value that has another type reads as the empty array or object. `structuredClone` is the
-- identity, since values are not shared. Every loop is a recursion on the list it runs over, or on
-- the number of its rounds, except the scanner of Chain/Duplicates, whose functions call one
-- another: it runs on fuel of twice the length of the text and one, since each of its calls takes a
-- character of the text or is the call of a value for an element or a member. The search is bounded
-- by its budget of fetches.
--
-- Parameters, which stand for code outside the repository: `to_string` (the conversion of a value
-- that is no string), `hostname` (the URL parser), `stringify` (`JSON.stringify` of three strings),
-- and the fields of `Platform` in Chain/Values: decoding a token and its protected header, importing
-- a key and verifying a token by it (jose), the issues that a schema finds (zod), decoding base64
-- and a literal of JSON, and the reading of numbers. Nothing is assumed of them.
--
-- Not modelled: `describeTrustChain`, which prints; fetching over HTTP and the discovery of entities
-- (what a fetch answers is an argument); the generation of keys and signing, which libraries do; the
-- schemas, which a library checks; trust mark logos and requests; peer chains and the comparison of
-- trust anchor keys; statement builders; entity collections; the servers and their endpoints; the
-- leaf, OIDC and wallet packages; the tools and the applications. They are input and output, or
-- calls of libraries, for the most part.
pub mod Authority
pub mod Cache
pub mod Chain
pub mod Common
pub mod Constraints
pub mod Json
pub mod MetadataValues
pub mod Policy
pub mod Replay
pub mod Tests
