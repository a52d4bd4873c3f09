-- ===== src/Chain/Links/Laws.antt =====
-- What is known of a chain against whose links no check has anything: every statement is issued and
-- signed by the entity that the next one is about, up to a trust anchor.
use oidfed.Common.{
  ℕ, ◌+◌, Str, ◌≡◌, refl, true, false, not, some, List, [], ◌∷◌, length, inl, inr, arith, Result,
  ok, err, Bool-cases, Option-cases, if◌then◌else◌,
}
use oidfed.Chain.Values.{Jwk, Platform, strict_equal, keys_of}
use oidfed.Chain.Errors.{
  concat-All, append-nil, add_if, add_if-nil, index_error, trust_chain_invalid, signature_invalid,
}
use oidfed.Chain.Signatures.{
  ParsedEntityStatement, VerifyError, entity_statement_typ, verify_entity_statement,
}
use oidfed.Chain.Statement.{ValidationOptions}
use oidfed.Chain.Links.{
  Link, claim_of, is_entity_configuration, last, TrustAnchorSet, anchor_of, is_refused,
  is_unverified, has_jwks, check_leaf, check_link, check_links, check_anchor, check_chain,
}

module _ (platform : Platform) (options : ValidationOptions) where
  -- A token's signature is good under one of the keys.
  abbrev pub IsVerified : Str → List Jwk → Type 0
  IsVerified jwt jwks =
      (statement : ParsedEntityStatement) × (verify_entity_statement platform jwt jwks
          entity_statement_typ options.clock_skew_seconds options.now
        ≡ ok statement)

  -- A statement was issued by the entity that the next one is about, and signed by that entity's keys.
  pub record Follows (current next : Link) : Type 0 where
    pub issuer : strict_equal (claim_of "iss" current) (claim_of "sub" next) ≡ true
    pub signature : IsVerified current.0 (keys_of (claim_of "jwks" next))

  -- The issuer is a configured trust anchor, and the statement is signed by the keys that are
  -- configured for it.
  pub record IsAnchored (anchors : TrustAnchorSet) (link : Link) : Type 0 where
    pub jwks : List Jwk
    pub known : anchor_of anchors (claim_of "iss" link) ≡ some jwks
    pub signature : IsVerified link.0 jwks

  -- A leaf that signed its own configuration.
  pub record IsSelfIssued (leaf : Link) : Type 0 where
    pub issuer : strict_equal (claim_of "iss" leaf) (claim_of "sub" leaf) ≡ true
    pub signature : IsVerified leaf.0 (keys_of (claim_of "jwks" leaf))

  -- From the leaf on each statement follows the one before it, and the last is anchored.
  abbrev pub IsLinked : TrustAnchorSet → Link → List Link → Type 0
  IsLinked anchors link [] = IsAnchored anchors link
  IsLinked anchors link (next ∷ links) = Follows link next × IsLinked anchors next links

  refused-verified :
      (r : Result VerifyError ParsedEntityStatement)
      → is_refused r ≡ false
      → (statement : ParsedEntityStatement) × (r ≡ ok statement)
  refused-verified (ok statement) h = (statement, refl)
  refused-verified (err e) h = cc

  unverified-IsVerified :
      (jwt : Str) (jwks : List Jwk)
      → is_unverified platform options jwt jwks ≡ false
      → IsVerified jwt jwks
  unverified-IsVerified jwt jwks h = refused-verified _ h

  pub check_leaf-IsSelfIssued :
      (leaf : Link) → check_leaf platform options leaf ≡ [] → IsSelfIssued leaf
  unfolding check_leaf
  check_leaf-IsSelfIssued leaf h =
      let (same, signed) =
        append-nil
          (add_if (not (is_entity_configuration leaf)) (index_error trust_chain_invalid 0 9))
          (if has_jwks platform options leaf
            then add_if (is_unverified platform options leaf.0 (keys_of (claim_of "jwks" leaf)))
                (index_error signature_invalid 0 10)
            else index_error trust_chain_invalid 0 10 ∷ [])
          h in
      let same' = add_if-nil _ _ same in
      elim (Bool-cases (has_jwks platform options leaf)) [
        | inr e ↦ absurd (cc (rw e at signed))
        | inl e ↦
            let signed' = add_if-nil _ _ (rw e at signed) in
            record { issuer = ground (arith, same'); signature = unverified-IsVerified _ _ signed' }
      ]

  -- Where the next statement has keys, which its own checks see to.
  check_link-Follows :
      (current next : Link) (j : ℕ)
      → has_jwks platform options next ≡ true
      → check_link platform options current next j ≡ []
      → Follows current next
  unfolding check_link
  check_link-Follows current next j e h =
      let (same, signed) = append-nil (add_if _ _) (add_if _ _) h in
      let same' = add_if-nil _ _ same in
      let signed' = add_if-nil _ _ signed in
      record {
        issuer = ground (arith, same');
        signature = unverified-IsVerified _ _ (ground (arith, signed', e));
      }

  check_anchor-IsAnchored :
      (anchors : TrustAnchorSet) (link : Link) (j : ℕ)
      → check_anchor platform options anchors link j ≡ []
      → IsAnchored anchors link
  unfolding check_anchor
  check_anchor-IsAnchored anchors link j h =
      let (known, (signed, _)) = concat-All _ h in
      elim (Option-cases (anchor_of anchors (claim_of "iss" link))) [
        | inl e ↦ let k = add_if-nil _ _ known in absurd (cc (rw e at k))
        | inr (jwks, e) ↦
            let signed' = add_if-nil _ _ (rw e at signed) in
            record { jwks = jwks; known = e; signature = unverified-IsVerified _ _ signed' }
      ]

  abbrev pub HaveKeys : List Link → Type 0
  HaveKeys [] = Unit
  HaveKeys (link ∷ links) = (has_jwks platform options link ≡ true) × HaveKeys links

  linked :
      (anchors : TrustAnchorSet) (link : Link) (links : List Link) (j last_index : ℕ)
      → HaveKeys links
      → check_links platform options link links j ≡ []
      → check_anchor platform options anchors (last link links) last_index ≡ []
      → IsLinked anchors link links
  unfolding check_links last
  linked anchors link [] j last_index keys h a = check_anchor-IsAnchored anchors link last_index a
  linked anchors link (next ∷ links) j last_index (here, keys) h a =
      let (first, rest) = append-nil (check_link platform options link next j) _ h in
      (
        check_link-Follows link next j here first,
        linked anchors next links (j + 1) last_index keys rest a,
      )

  pub check_chain-IsLinked :
      (anchors : TrustAnchorSet) (leaf : Link) (links : List Link)
      → HaveKeys links
      → check_chain platform options anchors leaf links ≡ []
      → IsLinked anchors leaf links
  unfolding check_chain
  check_chain-IsLinked anchors leaf links keys h =
      let (follow, (anchor, _)) = concat-All _ h in
      linked anchors leaf links 0 (length links) keys follow anchor
