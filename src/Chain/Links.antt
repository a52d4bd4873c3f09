-- ===== src/Chain/Links.antt =====
-- The checks between the statements of a chain in `validateTrustChainImpl` of
-- packages/core/src/trust-chain/validate.ts: the leaf's own signature, the continuity of issuers and
-- subjects, the signatures by the next statement's keys, the trust anchor and the authority hints.
pub mod Laws
use oidfed.Common.{
  ℕ, suc, ◌+◌, String, Str, js, Dict, get, has, any, length, Bool, true, false, not, ◌&&◌, ◌||◌,
  Option, none, some, List, [], ◌∷◌, ◌++◌, map, if◌then◌else◌, Result, ok, err, is_some, ◌==◌,
}
use oidfed.Json.{Json, str}
use oidfed.Chain.Values.{Jwk, Platform, strict_equal, truthy, as_object, as_array, keys_of}
use oidfed.Chain.Errors.{
  ValidationError, trust_chain_invalid, signature_invalid, trust_anchor_unknown, field_error,
  index_error, add_if, concat,
}
use oidfed.Chain.Signatures.{
  ParsedEntityStatement, VerifyError, entity_statement_typ, verify_entity_statement,
}
use oidfed.Chain.Statement.{ValidationOptions, is_ec}

-- A statement with the token that it was decoded from: `parsed[j]` with `chain[j]`.
abbrev pub Link : Type 0
Link = Str × ParsedEntityStatement

abbrev pub claim_of : String → Link → Option Json
claim_of name link = get (js name) link.1.payload

abbrev pub is_entity_configuration : Link → Bool
is_entity_configuration link = strict_equal (claim_of "iss" link) (claim_of "sub" link)

-- `parsed[parsed.length - 1]`
unfoldable pub last : Link → List Link → Link
last link [] = link
last link (next ∷ links) = last next links

-- The keys of the configured trust anchors.
abbrev pub TrustAnchorSet : Type 0
TrustAnchorSet = Dict (List Jwk)

-- `trustAnchors.get(iss)`: a `Map` whose keys are strings.
abbrev pub anchor_of : TrustAnchorSet → Option Json → Option (List Jwk)
anchor_of anchors (some (str iss)) = get iss anchors
anchor_of anchors _ = none

abbrev pub is_refused : Result VerifyError ParsedEntityStatement → Bool
is_refused (ok statement) = false
is_refused (err e) = true

module _ (platform : Platform) (options : ValidationOptions) where
  -- `!(await verifyEntityStatement(jwt, jwks, verifyOptions)).ok`
  abbrev pub is_unverified : Str → List Jwk → Bool
  is_unverified jwt jwks = is_refused (
      verify_entity_statement platform jwt jwks entity_statement_typ options.clock_skew_seconds
        options.now)

  abbrev pub has_jwks : Link → Bool
  has_jwks link = truthy platform.reading (claim_of "jwks" link)

  unfoldable pub check_leaf : Link → List ValidationError
  check_leaf leaf =
      add_if (not (is_entity_configuration leaf)) (index_error trust_chain_invalid 0 9)
      ++ (if has_jwks leaf
          then add_if (is_unverified leaf.0 (keys_of (claim_of "jwks" leaf)))
              (index_error signature_invalid 0 10)
          else index_error trust_chain_invalid 0 10 ∷ [])

  -- One statement with the next.
  unfoldable pub check_link : Link → Link → ℕ → List ValidationError
  check_link current next j =
      add_if (not (strict_equal (claim_of "iss" current) (claim_of "sub" next)))
        (index_error trust_chain_invalid j 12)
      ++ add_if (has_jwks next && is_unverified current.0 (keys_of (claim_of "jwks" next)))
          (index_error signature_invalid j 13)

  unfoldable pub check_links : Link → List Link → ℕ → List ValidationError
  check_links current [] j = []
  check_links current (next ∷ links) j = check_link current next j ++ check_links next links (j + 1)

  module _ (anchors : TrustAnchorSet) where
    abbrev pub is_anchor : Link → Bool
    is_anchor link = is_some (anchor_of anchors (claim_of "iss" link))

    unfoldable pub check_anchor : Link → ℕ → List ValidationError
    check_anchor link last_index = concat (
        add_if (not (is_anchor link)) (index_error trust_anchor_unknown last_index 14)
        ∷ elim (anchor_of anchors (claim_of "iss" link)) [
          | none ↦ []
          | some jwks ↦
              add_if (is_unverified link.0 jwks) (index_error signature_invalid last_index 15)
        ]
        ∷ add_if
            (is_entity_configuration link
              && is_anchor link
              && has (js "authority_hints") link.1.payload)
            (field_error trust_chain_invalid last_index (js "authority_hints") 14)
        ∷ add_if
            (is_entity_configuration link
              && is_anchor link
              && has (js "trust_anchor_hints") link.1.payload)
            (field_error trust_chain_invalid last_index (js "trust_anchor_hints") 15)
        ∷ [])

    -- The loop over the statements: `links` follow.
    unfoldable pub check_hints_present : Link → List Link → ℕ → List ValidationError
    check_hints_present link [] j =
        add_if
          (is_entity_configuration link
            && not (is_anchor link)
            && not (has (js "authority_hints") link.1.payload))
          (field_error trust_chain_invalid j (js "authority_hints") 14)
    check_hints_present link (next ∷ links) j =
        add_if (is_entity_configuration link && not (has (js "authority_hints") link.1.payload))
          (field_error trust_chain_invalid j (js "authority_hints") 14)
        ++ check_hints_present next links (j + 1)

  -- A subordinate statement, against the hints of the statement below it.
  unfoldable pub check_hint : Link → Link → ℕ → List ValidationError
  check_hint subject ss j =
      add_if
        (not (is_entity_configuration ss)
          && is_entity_configuration subject
          && truthy platform.reading (claim_of "authority_hints" subject)
          && not (
              any (λ hint. strict_equal (some hint) (claim_of "iss" ss))
                (as_array (claim_of "authority_hints" subject))))
        (field_error trust_chain_invalid j (js "authority_hints") 6)

  unfoldable pub check_hints_named : Link → List Link → ℕ → List ValidationError
  check_hints_named subject [] j = []
  check_hints_named subject (ss ∷ links) j =
      check_hint subject ss j ++ check_hints_named ss links (j + 1)

  -- What is checked behind the leaf.
  unfoldable pub check_chain : TrustAnchorSet → Link → List Link → List ValidationError
  check_chain anchors leaf links = concat (
      check_links leaf links 0
      ∷ check_anchor anchors (last leaf links) (length links)
      ∷ check_hints_present anchors leaf links 0
      ∷ check_hints_named leaf links 1
      ∷ [])
