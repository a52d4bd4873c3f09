-- ===== src/Chain/Validate.antt =====
-- `validateTrustChain`, `validateTrustChainStructure` and
-- `validateEntityConfigurationPublication` of packages/core/src/trust-chain/validate.ts, over the
-- checks of the other files.
pub mod Laws
pub mod Outcome
pub mod Policies
use oidfed.Common.{
  ℕ, ◌+◌, Str, js, Dict, get, put, length, leb, Bool, true, false, not, ◌&&◌, Option, none, some,
  List, [], ◌∷◌, ◌++◌, map, if◌then◌else◌, Result, ok, err, ◌>>=◌,
}
use oidfed.Json.{Json, num, str}
use oidfed.Policy.Apply.{Metadata}
use oidfed.Chain.Values.{
  Jwk, Platform, natural, strict_equal, truthy, as_string, as_strings, as_object, as_array, keys_of,
}
use oidfed.Chain.Errors.{
  ValidationError, trust_chain_invalid, trust_mark_invalid, index_error, field_error, check_error,
  fail_if, concat,
}
use oidfed.Chain.Signatures.{ParsedEntityStatement, decode_entity_statement}
use oidfed.Chain.Statement.{ValidationOptions, check_statements}
use oidfed.Chain.Marks.{ValidatedTrustMark, TrustMarkOwner, MarkError, validate_trust_mark}
use oidfed.Chain.Links.{
  Link, claim_of, is_entity_configuration, last, TrustAnchorSet, anchor_of, check_leaf, check_chain,
}
use oidfed.Chain.Metadata.{
  ContextualMetadataClaim, MetadataStage, Resolved, published_metadata, check_all_constraints,
  restrict_all, resolve_metadata,
}
use oidfed.Chain.Duplicates.{add_metadata_policy_duplicate_member_errors}

pub record ValidatedTrustChain : Type 0 where
  pub statements : List ParsedEntityStatement
  pub entity_id : Str
  pub trust_anchor_id : Str
  pub expires_at : ℕ
  pub resolved_metadata : Metadata
  pub trust_marks : List ValidatedTrustMark

-- A chain with the claims that are pending.
pub record Validated : Type 0 where
  pub chain : ValidatedTrustChain
  pub pending : List ContextualMetadataClaim

abbrev pub Failed : Type 0
Failed = List ValidationError

-- All but the last.
abbrev pub drop_last : List Link → List Link
drop_last [] = []
drop_last (link ∷ []) = []
drop_last (link ∷ next ∷ links) = link ∷ drop_last (next ∷ links)

-- `parsed.slice(1, -1)` where the trust anchor's own statement ends the chain, else `parsed.slice(1)`.
unfoldable pub subordinate_statements : Link → List Link → List Link
subordinate_statements leaf links =
    if is_entity_configuration (last leaf links) then drop_last links else links

abbrev pub payload_of : Link → Dict Json
payload_of link = link.1.payload

abbrev pub subjects : List Link → List Str
subjects links = map (λ (link : Link). as_string (claim_of "sub" link)) links

abbrev pub statement_of : Link → ParsedEntityStatement
statement_of link = link.1

abbrev pub no_stage : MetadataStage
no_stage = record { deferred = []; context = [] }

abbrev pub min : ℕ → ℕ → ℕ
min a b = if leb a b then a else b

module _ (platform : Platform) where
  -- A time, which a schema has checked to be a positive integer.
  abbrev pub seconds : Option Json → ℕ
  seconds (some (num n)) = elim (platform.reading n) [ natural t ↦ t | _ ↦ 0 ]
  seconds _ = 0

  abbrev pub expiry : Link → ℕ
  expiry link = seconds (claim_of "exp" link)

  unfoldable pub calculate_chain_expiration : Link → List Link → ℕ
  calculate_chain_expiration link [] = expiry link
  calculate_chain_expiration link (next ∷ links) =
      min (expiry link) (calculate_chain_expiration next links)

  -- The first loop: the statements that were decoded, with the duplicate members that were found.
  unfoldable pub decode_chain : Failed → ℕ → List Str → Result Failed (List Link × Failed)
  decode_chain errors j [] = ok ([], errors)
  decode_chain errors j (jwt ∷ chain) = elim (decode_entity_statement platform jwt) [
    | none ↦ err (errors ++ index_error trust_chain_invalid j 1 ∷ [])
    | some statement ↦
        decode_chain (errors ++ add_metadata_policy_duplicate_member_errors platform jwt j) (j + 1)
          chain
        >>= λ decoded. ok ((jwt, statement) ∷ decoded.0, decoded.1)
  ]

  -- Keys of the entities of the chain, the last statement of an entity first.
  abbrev pub add_entity_jwks : Dict (List Jwk) → List Link → Dict (List Jwk)
  add_entity_jwks known [] = known
  add_entity_jwks known (link ∷ links) =
      if is_entity_configuration link && truthy platform.reading (claim_of "jwks" link)
      then add_entity_jwks
          (put (as_string (claim_of "iss" link)) (keys_of (claim_of "jwks" link)) known) links
      else add_entity_jwks known links

  abbrev pub anchor_jwks : TrustAnchorSet → Link → Dict (List Jwk)
  anchor_jwks anchors link = elim (anchor_of anchors (claim_of "iss" link)) [
    | none ↦ []
    | some jwks ↦ (as_string (claim_of "iss" link), jwks) ∷ []
  ]

  -- What the trust anchor's own statement says of trust marks.
  abbrev pub trust_mark_issuers : Link → Dict (List Str)
  trust_mark_issuers anchor =
      if is_entity_configuration anchor
      then map (λ (e : Str × Json). (e.0, as_strings (some e.1)))
          (as_object (claim_of "trust_mark_issuers" anchor))
      else []

  abbrev pub owner_of : Json → TrustMarkOwner
  owner_of v = record {
    sub = as_string (get (js "sub") (as_object (some v)));
    jwks = keys_of (get (js "jwks") (as_object (some v)));
  }

  abbrev pub trust_mark_owners : Link → Option (Dict TrustMarkOwner)
  trust_mark_owners anchor =
      if is_entity_configuration anchor
        && truthy platform.reading (claim_of "trust_mark_owners" anchor)
      then some (
          map (λ (e : Str × Json). (e.0, owner_of e.1))
            (as_object (claim_of "trust_mark_owners" anchor)))
      else none

  abbrev pub mark_error : ValidationError
  mark_error = field_error trust_mark_invalid 0 (js "trust_marks") 16

  module _ (options : ValidationOptions) where
    -- `trustMarkIssuerKeys?.get(tmIss) ?? entityJwks[tmIss]`, for an issuer that is named.
    abbrev pub issuer_keys : Dict (List Jwk) → Option Json → Option (List Jwk)
    issuer_keys entity_jwks (some (str [])) = none
    issuer_keys entity_jwks (some (str (c ∷ s))) =
        elim (get (c ∷ s) options.trust_mark_issuer_keys) [
          | some jwks ↦ some jwks
          | none ↦ get (c ∷ s) entity_jwks
        ]
    issuer_keys entity_jwks _ = none

    abbrev pub from_mark : Result MarkError ValidatedTrustMark → Result Failed ValidatedTrustMark
    from_mark (ok mark) = ok mark
    from_mark (err e) = err (mark_error ∷ [])

    -- One published trust mark.
    unfoldable pub check_mark :
        Link → Link → Dict (List Jwk) → Json → Result Failed ValidatedTrustMark
    check_mark leaf anchor entity_jwks tm_ref =
        let ref = as_object (some tm_ref) in
        let jwt = as_string (get (js "trust_mark") ref) in
        elim (decode_entity_statement platform jwt) [
          | none ↦ err (mark_error ∷ [])
          | some decoded ↦
              if not (
                strict_equal (get (js "trust_mark_type") ref)
                  (get (js "trust_mark_type") decoded.payload))
              then err (mark_error ∷ [])
              else elim (issuer_keys entity_jwks (get (js "iss") decoded.payload)) [
                | none ↦ err (mark_error ∷ [])
                | some jwks ↦ from_mark (
                    validate_trust_mark platform jwt (trust_mark_issuers anchor) jwks (record {
                      clock_skew_seconds = options.clock_skew_seconds;
                      now = options.now;
                      trust_mark_owners = trust_mark_owners anchor;
                      expected_subject = some (as_string (claim_of "iss" leaf));
                    }))
              ]
        ]

    -- The loop over the marks: the valid ones, and the errors of the others.
    unfoldable pub check_marks :
        Link → Link → Dict (List Jwk) → List Json → List ValidatedTrustMark × Failed
    check_marks leaf anchor entity_jwks [] = ([], [])
    check_marks leaf anchor entity_jwks (tm_ref ∷ refs) =
        let (marks, errors) = check_marks leaf anchor entity_jwks refs in
        elim (check_mark leaf anchor entity_jwks tm_ref) [
          | ok mark ↦ (mark ∷ marks, errors)
          | err found ↦ (marks, found ++ errors)
        ]

    module _ (anchors : TrustAnchorSet) where
      abbrev pub published_marks : Bool → Link → List Link → List ValidatedTrustMark × Failed
      published_marks false leaf links = ([], [])
      published_marks true leaf links =
          let anchor = last leaf links in
          check_marks leaf anchor (add_entity_jwks (anchor_jwks anchors anchor) (leaf ∷ links))
            (as_array (claim_of "trust_marks" leaf))

      abbrev pub metadata_before_policy : Link → List Link → Metadata
      metadata_before_policy leaf links =
          restrict_all platform links (published_metadata leaf (subordinate_statements leaf links))

      abbrev pub constraint_errors : Link → List Link → Failed
      constraint_errors leaf links =
          check_all_constraints platform (subjects (leaf ∷ links)) links 1

      abbrev pub resolution : MetadataStage → Link → List Link → Resolved
      resolution stage leaf links =
          resolve_metadata platform options.custom_policy_operators stage
            (metadata_before_policy leaf links) (subordinate_statements leaf links)

      abbrev pub evaluation_errors : Bool → MetadataStage → Link → List Link → Failed
      evaluation_errors verify_marks stage leaf links = concat (
          constraint_errors leaf links
          ∷ (resolution stage leaf links).errors
          ∷ (published_marks verify_marks leaf links).1
          ∷ [])

      abbrev pub evaluation : Bool → MetadataStage → Link → List Link → Validated
      evaluation verify_marks stage leaf links = record {
        chain = record {
          statements = map statement_of (leaf ∷ links);
          entity_id = as_string (claim_of "iss" leaf);
          trust_anchor_id = as_string (claim_of "iss" (last leaf links));
          expires_at = calculate_chain_expiration leaf links;
          resolved_metadata = (resolution stage leaf links).metadata;
          trust_marks = (published_marks verify_marks leaf links).0;
        };
        pending = (resolution stage leaf links).pending;
      }

      -- Metadata, constraints, policies and trust marks of an authenticated chain.
      unfoldable pub evaluate : Bool → MetadataStage → Link → List Link → Result Failed Validated
      evaluate verify_marks stage leaf links =
          fail_if options.verbose_errors (evaluation_errors verify_marks stage leaf links) >>= λ _.
          ok (evaluation verify_marks stage leaf links)

      -- Behind the checks of each statement.
      unfoldable pub authenticate : Link → List Link → Result Failed (Unit {0})
      authenticate leaf links =
          fail_if options.verbose_errors
            (check_leaf platform options leaf ++ check_chain platform options anchors leaf links)

      -- The decoded statements, after the checks of each of them.
      unfoldable pub check_parsed : List Str → Result Failed (Link × List Link)
      check_parsed chain = decode_chain [] 0 chain >>= λ decoded. elim decoded.0 [
        | [] ↦ err (check_error trust_chain_invalid 1 ∷ [])
        | leaf ∷ links ↦
            fail_if options.verbose_errors (
              decoded.1
              ++ check_statements platform options (map statement_of (leaf ∷ links)) 0
                  (length links))
            >>= λ _. ok (leaf, links)
      ]

      -- `validateTrustChainImpl` of a whole chain.
      unfoldable pub validate_trust_chain_impl :
          Bool → MetadataStage → List Str → Result Failed Validated
      validate_trust_chain_impl verify_marks stage chain = check_parsed chain >>= λ parsed.
          authenticate parsed.0 parsed.1 >>= λ _. evaluate verify_marks stage parsed.0 parsed.1

      unfoldable pub validate_trust_chain : List Str → Result Failed Validated
      validate_trust_chain chain = validate_trust_chain_impl true no_stage chain

      unfoldable pub validate_trust_chain_structure : List Str → Result Failed Validated
      validate_trust_chain_structure chain = validate_trust_chain_impl false no_stage chain

      -- The leaf alone, where no error is replaced by the general one.
      unfoldable pub validate_entity_configuration_publication :
          Str → Result Failed ParsedEntityStatement
      validate_entity_configuration_publication jwt = check_parsed (jwt ∷ []) >>= λ parsed.
          elim (check_leaf platform options parsed.0) [
            | [] ↦ ok (statement_of parsed.0)
            | e ∷ errors ↦ err (e ∷ errors)
          ]
