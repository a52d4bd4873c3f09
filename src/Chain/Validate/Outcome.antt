-- ===== src/Chain/Validate/Outcome.antt =====
-- What the result of a validation says: its expiry, the constraints it keeps, and its errors.
use oidfed.Common.{
  ℕ, ◌+◌, ◌≤◌, Str, js, get, ◌≡◌, ◌≢◌, refl, ◌∙◌, Bool, true, false, List, [], ◌∷◌, ◌++◌, map, leb,
  In, inl, inr, arith, ok, err, >>=-err, Option-cases, Bool-cases,
}
use oidfed.Chain.Values.{Platform}
use oidfed.Chain.Errors.{
  ValidationError, fail_if, concat, concat-All, report, index_error, trust_chain_invalid,
  check_error,
}
use oidfed.Chain.Signatures.{ParsedEntityStatement, decode_entity_statement}
use oidfed.Chain.Statement.{ValidationOptions}
use oidfed.Chain.Links.{Link, TrustAnchorSet}
use oidfed.Chain.Duplicates.{add_metadata_policy_duplicate_member_errors}
use oidfed.Chain.Metadata.{MetadataStage}
use oidfed.Chain.Metadata.Laws.{AllKept, check_all_constraints-AllKept}
use oidfed.Chain.Validate.{
  Failed, Validated, ValidatedTrustChain, decode_chain, check_parsed, authenticate, evaluate,
  evaluation_errors, constraint_errors, statement_of, seconds, expiry, calculate_chain_expiration,
  validate_trust_chain_impl, validate_trust_chain, validate_trust_chain_structure, no_stage,
  subjects, resolution, published_marks,
}
use oidfed.Chain.Validate.Laws.{IsTrusted, validate-phases, evaluate-ok, authenticate-IsTrusted}

module _ (platform : Platform) where
  -- The time at which a statement expires.
  abbrev pub expires : ParsedEntityStatement → ℕ
  expires statement = seconds platform (get (js "exp") statement.payload)

  calculate-le :
      (link : Link) (links : List Link) (statement : ParsedEntityStatement)
      → In statement (map statement_of (link ∷ links))
      → calculate_chain_expiration platform link links ≤ expires statement
  unfolding calculate_chain_expiration
  calculate-le link [] statement (inl e) = rw e (omega arith)
  calculate-le link [] statement (inr m) = absurd m
  calculate-le link (next ∷ links) statement (inl e) = rw e (ground arith)
  calculate-le link (next ∷ links) statement (inr m) =
      let rest = calculate-le next links statement m in ground (arith, rest)

  calculate-attained :
      (link : Link) (links : List Link)
      → (statement : ParsedEntityStatement) × In statement (map statement_of (link ∷ links))
        × (calculate_chain_expiration platform link links ≡ expires statement)
  unfolding calculate_chain_expiration
  calculate-attained link [] = (link.1, inl refl, refl)
  calculate-attained link (next ∷ links) =
      elim (Bool-cases
        (leb (expiry platform link) (calculate_chain_expiration platform next links))) [
          | inl e ↦ (link.1, inl refl, rw e refl)
          | inr e ↦
              let (statement, m, same) = calculate-attained next links in
              (statement, inr m, rw e same)
        ]

  module _ (options : ValidationOptions) (anchors : TrustAnchorSet) where
    -- When a chain's result expires: no later than any of its statements, and with one of them.
    pub record ExpiresFirst (chain : ValidatedTrustChain) : Type 0 where
      pub bound :
          (statement : ParsedEntityStatement)
          → In statement chain.statements
          → chain.expires_at ≤ expires statement
      pub attained :
          (statement : ParsedEntityStatement) × In statement chain.statements
          × (chain.expires_at ≡ expires statement)

    -- The result of a validation expires no later than any of its statements, and at the time at
    -- which one of them does.
    pub validate-ExpiresFirst :
        (verify_marks : Bool) (stage : MetadataStage) (chain : List Str) (validated : Validated)
        → validate_trust_chain_impl platform options anchors verify_marks stage chain ≡ ok validated
        → ExpiresFirst validated.chain
    validate-ExpiresFirst verify_marks stage chain validated h =
        let (leaf, links, _, _, e) =
          validate-phases platform options anchors verify_marks stage chain validated h in
        rw (← (evaluate-ok platform options anchors verify_marks stage leaf links validated e).1)
          (record {
            bound = λ statement m. calculate-le leaf links statement m;
            attained = calculate-attained leaf links;
          })

    pub no_errors :
        (verify_marks : Bool) (stage : MetadataStage) (leaf : Link) (links : List Link)
        → evaluation_errors platform options anchors verify_marks stage leaf links ≡ []
        → (constraint_errors platform options anchors leaf links ≡ [])
          × ((resolution platform options anchors stage leaf links).errors ≡ [])
          × ((published_marks platform options anchors verify_marks leaf links).1 ≡ [])
    no_errors verify_marks stage leaf links h =
        let (constraints, (policies, (marks, _))) = concat-All _ h in (constraints, policies, marks)

    abbrev pub IsConstrained : List Str → Type 0
    IsConstrained chain =
        (leaf : Link) × (links : List Link) × IsTrusted platform options anchors chain leaf links
        × AllKept platform (subjects (leaf ∷ links)) links 1

    -- In a chain that validates, the constraints of every statement above the leaf hold at the place
    -- where it stands: its path length bounds the place, and its naming constraints admit the
    -- subject of every statement below it.
    pub validate-IsConstrained :
        (verify_marks : Bool) (stage : MetadataStage) (chain : List Str) (validated : Validated)
        → validate_trust_chain_impl platform options anchors verify_marks stage chain ≡ ok validated
        → IsConstrained chain
    validate-IsConstrained verify_marks stage chain validated h =
        let (leaf, links, parsed, trusted, e) =
          validate-phases platform options anchors verify_marks stage chain validated h in
        let (none_found, _) =
          evaluate-ok platform options anchors verify_marks stage leaf links validated e in
        (
          leaf,
          links,
          authenticate-IsTrusted platform options anchors chain leaf links parsed trusted,
          check_all_constraints-AllKept platform (subjects (leaf ∷ links)) links 1
              (no_errors verify_marks stage leaf links none_found).0,
        )

    fail_if-err :
        (verbose_errors : Bool) (errors found : List ValidationError)
        → fail_if verbose_errors errors ≡ err found
        → found ≢ []
    unfolding report
    fail_if-err verbose_errors [] found h e = cc
    fail_if-err true (x ∷ errors) found h e = cc
    fail_if-err false (x ∷ errors) found h e = cc

    snoc_ne : (errors : Failed) (e : ValidationError) → errors ++ e ∷ [] ≢ []
    snoc_ne [] e h = cc
    snoc_ne (x ∷ errors) e h = cc

    decode_chain-err :
        (errors : Failed) (j : ℕ) (chain : List Str) (found : Failed)
        → decode_chain platform errors j chain ≡ err found
        → found ≢ []
    unfolding decode_chain
    decode_chain-err errors j [] found h e = cc
    decode_chain-err errors j (jwt ∷ chain) found h e =
        elim (Option-cases (decode_entity_statement platform jwt)) [
          | inl none_there ↦
              let h' = rw (none_there, decode_chain) at h in
              let same : errors ++ index_error trust_chain_invalid j 1 ∷ [] ≡ found = cc h' in
              snoc_ne errors (index_error trust_chain_invalid j 1) (same ∙ e)
          | inr (statement, there) ↦ elim (>>=-err _ _ (rw (there, decode_chain) at h)) [
            | inl first ↦
                decode_chain-err
                  (errors ++ add_metadata_policy_duplicate_member_errors platform jwt j) (j + 1)
                  chain found first e
            | inr (decoded, _, last') ↦ cc last'
          ]
        ]

    check_parsed-err_of :
        (chain : List Str) (decoded : List Link × Failed) (found : Failed)
        → decode_chain platform [] 0 chain ≡ ok decoded
        → check_parsed platform options anchors chain ≡ err found
        → found ≢ []
    unfolding check_parsed
    check_parsed-err_of chain ([], errors) found e h none_found =
        let same : check_error trust_chain_invalid 1 ∷ [] ≡ found = cc (rw e at h) in
        cc (same, none_found)
    check_parsed-err_of chain (leaf ∷ links, errors) found e h none_found =
        elim (>>=-err _ (λ _. ok (leaf, links)) (rw e at h)) [
          | inl first ↦ fail_if-err options.verbose_errors _ found first none_found
          | inr (_, _, last') ↦ cc last'
        ]

    check_parsed-err :
        (chain : List Str) (found : Failed)
        → check_parsed platform options anchors chain ≡ err found
        → found ≢ []
    unfolding check_parsed
    check_parsed-err chain found h = elim (>>=-err (decode_chain platform [] 0 chain) _ h) [
      | inl first ↦ decode_chain-err [] 0 chain found first
      | inr (decoded, e, _) ↦ check_parsed-err_of chain decoded found e h
    ]

    -- A validation that fails gives at least one error, at whatever point it stops and whether or
    -- not the errors are wanted in detail.
    pub validate-err :
        (verify_marks : Bool) (stage : MetadataStage) (chain : List Str) (found : Failed)
        → validate_trust_chain_impl platform options anchors verify_marks stage chain ≡ err found
        → found ≢ []
    unfolding validate_trust_chain_impl authenticate evaluate
    validate-err verify_marks stage chain found h =
        elim (>>=-err (check_parsed platform options anchors chain) _ h) [
          | inl first ↦ check_parsed-err chain found first
          | inr ((leaf, links), _, rest) ↦
              elim (>>=-err (authenticate platform options anchors leaf links) _ rest) [
                | inl untrusted ↦ fail_if-err options.verbose_errors _ found untrusted
                | inr (_, _, evaluated) ↦
                    elim (>>=-err
                      (fail_if options.verbose_errors
                        (evaluation_errors platform options anchors verify_marks stage leaf links))
                      _ evaluated) [
                        | inl refused ↦ fail_if-err options.verbose_errors _ found refused
                        | inr (_, _, last') ↦ λ none_found. cc last'
                      ]
              ]
        ]

    -- The result without its trust marks.
    abbrev pub without_marks : Validated → Validated
    without_marks validated = record validated {
      chain = record validated.chain { trust_marks = [] };
    }

    evaluate-without :
        (leaf : Link) (links : List Link) (validated : Validated)
        → evaluate platform options anchors true no_stage leaf links ≡ ok validated
        → evaluate platform options anchors false no_stage leaf links ≡ ok (without_marks validated)
    unfolding evaluate concat
    evaluate-without leaf links validated h =
        let (none_found, same) =
          evaluate-ok platform options anchors true no_stage leaf links validated h in
        let (constraints, policies, _) = no_errors true no_stage leaf links none_found in
        rw (← same) (rw (constraints, policies) refl)

    -- A chain that validates with its trust marks has a valid structure, with the same result but
    -- for the marks.
    pub validate_trust_chain-structure :
        (chain : List Str) (validated : Validated)
        → validate_trust_chain platform options anchors chain ≡ ok validated
        → validate_trust_chain_structure platform options anchors chain
          ≡ ok (without_marks validated)
    unfolding validate_trust_chain validate_trust_chain_structure validate_trust_chain_impl
    validate_trust_chain-structure chain validated h =
        let (leaf, links, parsed, trusted, e) =
          validate-phases platform options anchors true no_stage chain validated h in
        rw parsed (rw trusted (evaluate-without leaf links validated e))
