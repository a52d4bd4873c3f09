-- ===== src/Chain/Validate/Laws.antt =====
-- What a chain that validates is: decoded from its tokens, with every statement accepted, linked from
-- the leaf to a trust anchor.
use oidfed.Common.{
  ℕ, ◌+◌, Str, ◌≡◌, refl, Bool, some, List, [], ◌∷◌, ◌++◌, map, length, inl, inr, arith, ok, >>=-ok,
  Option-cases,
}
use oidfed.Chain.Values.{Platform, as_string}
use oidfed.Chain.Errors.{fail_if, fail_if-ok, append-nil}
use oidfed.Chain.Signatures.{decode_entity_statement}
use oidfed.Chain.Statement.{ValidationOptions}
use oidfed.Chain.Statement.Laws.{AllAccepted, check_statements-AllAccepted}
use oidfed.Chain.Links.{Link, claim_of, last, TrustAnchorSet, check_leaf}
use oidfed.Chain.Links.Laws.{
  IsSelfIssued, IsLinked, HaveKeys, check_leaf-IsSelfIssued, check_chain-IsLinked,
}
use oidfed.Chain.Duplicates.{add_metadata_policy_duplicate_member_errors}
use oidfed.Chain.Metadata.{MetadataStage}
use oidfed.Chain.Validate.{
  Failed, Validated, decode_chain, check_parsed, authenticate, evaluate, evaluation,
  evaluation_errors, statement_of, validate_trust_chain_impl,
}

module _ (platform : Platform) where
  -- The links are the tokens, each with the statement that it decodes to.
  abbrev pub AreDecoded : List Str → List Link → Type 0
  AreDecoded [] [] = Unit
  AreDecoded (jwt ∷ chain) (link ∷ links) =
      (link.0 ≡ jwt) × (decode_entity_statement platform jwt ≡ some link.1) × AreDecoded chain links
  AreDecoded _ _ = ⊥

  decode_chain-AreDecoded :
      (errors : Failed) (j : ℕ) (chain : List Str) (links : List Link) (errors' : Failed)
      → decode_chain platform errors j chain ≡ ok (links, errors')
      → AreDecoded chain links
  unfolding decode_chain
  decode_chain-AreDecoded errors j [] links errors' h =
      let e : [] ≡ links = ground (arith, h) in rw (← e) tt
  decode_chain-AreDecoded errors j (jwt ∷ chain) links errors' h =
      elim (Option-cases (decode_entity_statement platform jwt)) [
        | inl e ↦ absurd (cc (rw (e, decode_chain) at h))
        | inr (statement, e) ↦
            let ((rest, more), first, last') = >>=-ok _ _ (rw (e, decode_chain) at h) in
            let same : (jwt, statement) ∷ rest ≡ links = ground (arith, last') in
            rw (← same) (
              refl,
              e,
              decode_chain-AreDecoded
                  (errors ++ add_metadata_policy_duplicate_member_errors platform jwt j) (j + 1)
                  chain rest more first,
            )
      ]

  module _ (options : ValidationOptions) where
    HaveKeys-of :
        (links : List Link) (j last_index : ℕ)
        → AllAccepted platform options (map statement_of links) j last_index
        → HaveKeys platform options links
    HaveKeys-of [] j last_index a = tt
    HaveKeys-of (link ∷ links) j last_index (here, a) =
        (here.keys, HaveKeys-of links (j + 1) last_index a)

    module _ (anchors : TrustAnchorSet) where
      -- The specification of an authenticated chain.
      pub record IsTrusted (chain : List Str) (leaf : Link) (links : List Link) : Type 0 where
        pub decoded : AreDecoded chain (leaf ∷ links)
        pub accepted :
            AllAccepted platform options (map statement_of (leaf ∷ links)) 0 (length links)
        pub self_issued : IsSelfIssued platform options leaf
        pub linked : IsLinked platform options anchors leaf links

      check_parsed-ok_of :
          (chain : List Str) (found : List Link × Failed) (leaf : Link) (links : List Link)
          → decode_chain platform [] 0 chain ≡ ok found
          → check_parsed platform options anchors chain ≡ ok (leaf, links)
          → AreDecoded chain (leaf ∷ links)
            × AllAccepted platform options (map statement_of (leaf ∷ links)) 0 (length links)
      unfolding check_parsed
      check_parsed-ok_of chain ([], errors) leaf links e h = absurd (cc (rw e at h))
      check_parsed-ok_of chain (first ∷ rest, errors) leaf links e h =
          let (_, checked, same) = >>=-ok _ _ (rw e at h) in
          let same_leaf : first ≡ leaf = ground (arith, same) in
          let same_links : rest ≡ links = ground (arith, same) in
          rw (← same_leaf, ← same_links)
            (
              decode_chain-AreDecoded [] 0 chain (first ∷ rest) errors e,
              check_statements-AllAccepted platform options (map statement_of (first ∷ rest)) 0
                  (length rest)
                  (append-nil errors _ (fail_if-ok options.verbose_errors _ checked)).1,
            )

      check_parsed-ok :
          (chain : List Str) (leaf : Link) (links : List Link)
          → check_parsed platform options anchors chain ≡ ok (leaf, links)
          → AreDecoded chain (leaf ∷ links)
            × AllAccepted platform options (map statement_of (leaf ∷ links)) 0 (length links)
      unfolding check_parsed
      check_parsed-ok chain leaf links h =
          let (found, e, _) = >>=-ok (decode_chain platform [] 0 chain) _ h in
          check_parsed-ok_of chain found leaf links e h

      pub authenticate-IsTrusted :
          (chain : List Str) (leaf : Link) (links : List Link)
          → check_parsed platform options anchors chain ≡ ok (leaf, links)
          → authenticate platform options anchors leaf links ≡ ok tt
          → IsTrusted chain leaf links
      unfolding authenticate
      authenticate-IsTrusted chain leaf links h a =
          let (decoded, accepted) = check_parsed-ok chain leaf links h in
          let (own, others) =
            append-nil (check_leaf platform options leaf) _
              (fail_if-ok options.verbose_errors _ a) in
          record {
            decoded = decoded;
            accepted = accepted;
            self_issued = check_leaf-IsSelfIssued platform options leaf own;
            linked =
                check_chain-IsLinked platform options anchors leaf links
                  (HaveKeys-of links 1 (length links) accepted.1) others;
          }

      -- The three phases of a validation that succeeds.
      pub validate-phases :
          (verify_marks : Bool) (stage : MetadataStage) (chain : List Str) (validated : Validated)
          → validate_trust_chain_impl platform options anchors verify_marks stage chain
            ≡ ok validated
          → (leaf : Link) × (links : List Link) × (check_parsed platform options anchors chain
              ≡ ok (leaf, links))
            × (authenticate platform options anchors leaf links ≡ ok tt)
            × (evaluate platform options anchors verify_marks stage leaf links ≡ ok validated)
      unfolding validate_trust_chain_impl
      validate-phases verify_marks stage chain validated h =
          let ((leaf, links), parsed, rest) =
            >>=-ok (check_parsed platform options anchors chain) _ h in
          let (_, trusted, evaluated) =
            >>=-ok (authenticate platform options anchors leaf links) _ rest in
          (leaf, links, parsed, trusted, evaluated)

      -- The statements, the entity and the trust anchor of the result are those of the links.
      pub record IsEvidence (leaf : Link) (links : List Link) (validated : Validated) : Type 0 where
        pub statements : validated.chain.statements ≡ map statement_of (leaf ∷ links)
        pub entity_id : validated.chain.entity_id ≡ as_string (claim_of "iss" leaf)
        pub trust_anchor_id :
            validated.chain.trust_anchor_id ≡ as_string (claim_of "iss" (last leaf links))

      pub evaluate-ok :
          (verify_marks : Bool) (stage : MetadataStage) (leaf : Link) (links : List Link)
          (validated : Validated)
          → evaluate platform options anchors verify_marks stage leaf links ≡ ok validated
          → (evaluation_errors platform options anchors verify_marks stage leaf links ≡ [])
            × (evaluation platform options anchors verify_marks stage leaf links ≡ validated)
      unfolding evaluate
      evaluate-ok verify_marks stage leaf links validated h =
          let (_, passed, same) =
            >>=-ok
              (fail_if options.verbose_errors
                (evaluation_errors platform options anchors verify_marks stage leaf links))
              (λ _. ok (evaluation platform options anchors verify_marks stage leaf links)) h in
          (fail_if-ok options.verbose_errors _ passed, ground (arith, same))

      evaluate-IsEvidence :
          (verify_marks : Bool) (stage : MetadataStage) (leaf : Link) (links : List Link)
          (validated : Validated)
          → evaluate platform options anchors verify_marks stage leaf links ≡ ok validated
          → IsEvidence leaf links validated
      evaluate-IsEvidence verify_marks stage leaf links validated h =
          rw (← (evaluate-ok verify_marks stage leaf links validated h).1)
            (record { statements = refl; entity_id = refl; trust_anchor_id = refl })

      abbrev pub IsAuthentic : List Str → Validated → Type 0
      IsAuthentic chain validated =
          (leaf : Link) × (links : List Link) × IsTrusted chain leaf links
          × IsEvidence leaf links validated

      -- If a chain of tokens validates, then it decodes to statements each of which is accepted at
      -- its place; the leaf's statement is issued and signed by the leaf itself; every statement is
      -- issued by the subject of the next one and signed by that one's keys; the last is issued by a
      -- configured trust anchor and signed by the keys that are configured for it; and the result
      -- holds these statements, the leaf and that trust anchor.
      pub validate-IsAuthentic :
          (verify_marks : Bool) (stage : MetadataStage) (chain : List Str) (validated : Validated)
          → validate_trust_chain_impl platform options anchors verify_marks stage chain
            ≡ ok validated
          → IsAuthentic chain validated
      validate-IsAuthentic verify_marks stage chain validated h =
          let (leaf, links, parsed, trusted, evaluated) =
            validate-phases verify_marks stage chain validated h in
          (
            leaf,
            links,
            authenticate-IsTrusted chain leaf links parsed trusted,
            evaluate-IsEvidence verify_marks stage leaf links validated evaluated,
          )
