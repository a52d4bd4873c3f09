-- ===== src/Chain/Marks/Laws.antt =====
-- What a trust mark that validates is: issued by an allowed issuer to the expected subject, signed by
-- the issuer's keys, and delegated by the owner of its type where the type has one.
use oidfed.Common.{
  is_inherited, Option-cases, ◌∙◌, String, Str, js, Dict, get, str_eq, str_eq_iff, ◌≡◌, refl, sym,
  ap, ◌⊎◌, inl, inr, Bool, true, false, not, ◌&&◌, Option, none, some, List, [], ◌∷◌, In, arith,
  Result, ok, err, >>=-ok, Bool-cases, any-witness,
}
use mathlib.Core.Path.{subst}
use oidfed.Chain.Values.{Jwk, Platform, is_after, as_string}
use oidfed.Chain.Signatures.{
  ParsedEntityStatement, VerifyError, verify_entity_statement, trust_mark_typ,
  trust_mark_delegation_typ, decode_entity_statement,
}
use oidfed.Chain.Marks.{
  MarkError, ValidatedTrustMark, ValidatedTrustMarkDelegation, TrustMarkOwner,
  TrustMarkValidationOptions, owner_for, is_open_name, check_allowed, unauthorized_issuer,
  refuse_if, expiry_passed, check_verified, found, is_unexpected, may_issue, validate_delegation,
  check_delegation, validate_trust_mark, is_owned, is_nonempty_text, read_mark, read_delegation,
}

refuse_if-ok : (b : Bool) (e : MarkError) {x : Unit {0}} → refuse_if b e ≡ ok x → b ≡ false
unfolding refuse_if
refuse_if-ok true e h = cc
refuse_if-ok false e h = refl

found-ok : {V : Type 0} (e : MarkError) (o : Option V) {v : V} → found e o ≡ ok v → o ≡ some v
unfolding found
found-ok e none h = cc
found-ok e (some w) {v} h = let same : w ≡ v = cc h in ap some same

check_verified-ok :
    (r : Result VerifyError ParsedEntityStatement) {x : Unit {0}}
    → check_verified r ≡ ok x
    → (statement : ParsedEntityStatement) × (r ≡ ok statement)
unfolding check_verified
check_verified-ok (ok statement) h = (statement, refl)
check_verified-ok (err e) h = cc

may_issue-cases :
    (allowed : List Str) (issuer : Str)
    → may_issue allowed issuer ≡ true
    → (allowed ≡ []) ⊎ In issuer allowed
unfolding may_issue
may_issue-cases [] issuer h = inl refl
may_issue-cases (i ∷ allowed) issuer h =
    let (x, m, same) = any-witness (str_eq issuer) (i ∷ allowed) h in
    let e : issuer ≡ x = (str_eq_iff issuer x).0 same in
    inr (subst (λ (y : Str). In y (i ∷ allowed)) (sym e) m)

-- The type is listed with no issuers or with this one, or it is not listed and is a name that every
-- object inherits, of a function without arguments or of the prototype.
abbrev pub IsAllowed : Dict (List Str) → Str → Str → Type 0
IsAllowed issuers mark_type issuer =
    ((allowed : List Str) × (get mark_type issuers ≡ some allowed)
      × ((allowed ≡ []) ⊎ In issuer allowed))
    ⊎ ((get mark_type issuers ≡ none) × (is_open_name mark_type ≡ true))

check_allowed-IsAllowed :
    (issuers : Dict (List Str)) (mark_type issuer : Str) {x : Unit {0}}
    → check_allowed issuers mark_type issuer ≡ ok x
    → IsAllowed issuers mark_type issuer
unfolding check_allowed
check_allowed-IsAllowed issuers mark_type issuer h = elim (Option-cases (get mark_type issuers)) [
  | inr (allowed, listed) ↦
      let may = refuse_if-ok _ unauthorized_issuer (rw (listed, check_allowed) at h) in
      inl (allowed, listed, may_issue-cases allowed issuer (ground (arith, may)))
  | inl missing ↦ elim (Bool-cases (is_open_name mark_type)) [
    | inl open_ ↦ inr (missing, open_)
    | inr closed ↦ elim (Bool-cases (is_inherited mark_type)) [
      | inl e ↦ absurd (cc (rw (missing, check_allowed, closed, e) at h))
      | inr e ↦ absurd (cc (rw (missing, check_allowed, closed, e) at h))
    ]
  ]
]

module _ (platform : Platform) (options : TrustMarkValidationOptions) where
  -- A token is good under a type and keys at the time of the options.
  abbrev pub IsSigned : Str → List Jwk → String → Type 0
  IsSigned jwt jwks typ =
      (statement : ParsedEntityStatement) × (verify_entity_statement platform jwt jwks typ
          options.clock_skew_seconds options.now
        ≡ ok statement)

  -- A delegation of an owner to an issuer for a type, signed by the owner.
  pub record IsDelegated (jwt issuer mark_type : Str) (d : ValidatedTrustMarkDelegation)
      : Type 0 where
    pub owner : TrustMarkOwner
    pub owned : owner_for options.trust_mark_owners mark_type ≡ some (some owner)
    pub by_owner : d.issuer ≡ owner.sub
    pub to_issuer : d.subject ≡ issuer
    pub for_type : d.trust_mark_type ≡ mark_type
    pub signature : IsSigned jwt owner.jwks trust_mark_delegation_typ
    pub issued : is_after d.issued_at options.now options.clock_skew_seconds ≡ false
    pub unexpired : expiry_passed d.expires_at options.now options.clock_skew_seconds ≡ false

  validate_delegation-IsDelegated :
      (jwt issuer mark_type : Str) (d : ValidatedTrustMarkDelegation)
      → validate_delegation platform jwt issuer mark_type options ≡ ok d
      → IsDelegated jwt issuer mark_type d
  unfolding validate_delegation
  validate_delegation-IsDelegated jwt issuer mark_type d h =
      let (decoded, _, h1) = >>=-ok (found _ (decode_entity_statement platform jwt)) _ h in
      let (_, _, h2) = >>=-ok (refuse_if _ _) _ h1 in
      let (_, _, h3) = >>=-ok (refuse_if _ _) _ h2 in
      let (_, _, h4) = >>=-ok (refuse_if _ _) _ h3 in
      let (_, _, h5) = >>=-ok (refuse_if _ _) _ h4 in
      let (_, subject, h6) = >>=-ok (refuse_if _ _) _ h5 in
      let (_, of_type, h7) = >>=-ok (refuse_if _ _) _ h6 in
      let (value, known, h7a) =
        >>=-ok (found _ (owner_for options.trust_mark_owners mark_type)) _ h7 in
      let (owner, owned, h8) = >>=-ok (found _ value) _ h7a in
      let (_, by_owner, h9) = >>=-ok (refuse_if _ _) _ h8 in
      let (_, issued, h10) = >>=-ok (refuse_if _ _) _ h9 in
      let (_, signed, h11) = >>=-ok (check_verified _) _ h10 in
      let (_, unexpired, h12) = >>=-ok (refuse_if _ _) _ h11 in
      let same : read_delegation platform decoded.payload ≡ d = cc h12 in
      let a = refuse_if-ok _ _ by_owner in
      let b = refuse_if-ok _ _ subject in
      let c = refuse_if-ok _ _ of_type in
      rw (← same) (record {
        owner = owner;
        owned = found-ok _ _ known ∙ ap some (found-ok _ _ owned);
        by_owner = (str_eq_iff _ _).0 (ground (arith, a));
        to_issuer = (str_eq_iff _ _).0 (ground (arith, b));
        for_type = (str_eq_iff _ _).0 (ground (arith, c));
        signature = check_verified-ok _ signed;
        issued = refuse_if-ok _ _ issued;
        unexpired = refuse_if-ok _ _ unexpired;
      })

  -- Where the type has an owner, or a delegation is named, the mark carries one.
  check_delegation-IsDelegated :
      (jwt issuer mark_type : Str) (delegation : Option ValidatedTrustMarkDelegation)
      (owner : Option TrustMarkOwner)
      → owner_for options.trust_mark_owners mark_type ≡ some owner
      → is_owned platform options mark_type && not (is_nonempty_text platform jwt) ≡ false
      → check_delegation platform jwt issuer mark_type options ≡ ok delegation
      → (d : ValidatedTrustMarkDelegation) × (delegation ≡ some d)
        × IsDelegated jwt issuer mark_type d
  check_delegation-IsDelegated jwt issuer mark_type delegation owner owned required h =
      elim (Bool-cases (is_nonempty_text platform jwt)) [
        | inr e ↦ absurd (ground (arith, owned, required, e))
        | inl e ↦
            let (d, valid, same) =
              >>=-ok (validate_delegation platform jwt issuer mark_type options) _ (rw e at h) in
            (
              d,
              (let k : ok (some d) ≡ ok delegation = same in sym (cc k)),
              validate_delegation-IsDelegated jwt issuer mark_type d valid,
            )
      ]

  -- A mark of the payload of a token.
  pub record IsTrustedMark (jwt : Str) (issuers : Dict (List Str)) (jwks : List Jwk)
      (mark : ValidatedTrustMark) : Type 0 where
    pub allowed : IsAllowed issuers mark.trust_mark_type mark.issuer
    pub subject : is_unexpected options.expected_subject mark.subject ≡ false
    pub signature : IsSigned jwt jwks trust_mark_typ
    pub issued : is_after mark.issued_at options.now options.clock_skew_seconds ≡ false
    pub unexpired : expiry_passed mark.expires_at options.now options.clock_skew_seconds ≡ false
    pub delegated :
        (owner : Option TrustMarkOwner)
        → owner_for options.trust_mark_owners mark.trust_mark_type ≡ some owner
        → (d : ValidatedTrustMarkDelegation) × (delegation_jwt : Str) × (mark.delegation ≡ some d)
          × IsDelegated delegation_jwt mark.issuer mark.trust_mark_type d

  -- A trust mark that validates has a type that the trust anchor lists, with no issuers or with its
  -- issuer among them, or a type that is not listed and is one of four names that every object
  -- inherits (`toString`, `valueOf`, `toLocaleString` and `__proto__`); it is about the expected
  -- subject, signed by one of the given keys, not issued in the future and not expired; and if
  -- something is found as the owner of its type, it carries a delegation of a configured owner to its
  -- issuer for that type, signed by the owner's keys and not expired.
  pub validate_trust_mark-IsTrustedMark :
      (jwt : Str) (issuers : Dict (List Str)) (jwks : List Jwk) (mark : ValidatedTrustMark)
      → validate_trust_mark platform jwt issuers jwks options ≡ ok mark
      → IsTrustedMark jwt issuers jwks mark
  unfolding validate_trust_mark
  validate_trust_mark-IsTrustedMark jwt issuers jwks mark h =
      let (decoded, _, h1) = >>=-ok (found _ (decode_entity_statement platform jwt)) _ h in
      let (_, _, h2) = >>=-ok (refuse_if _ _) _ h1 in
      let (_, _, h3) = >>=-ok (refuse_if _ _) _ h2 in
      let (_, _, h4) = >>=-ok (refuse_if _ _) _ h3 in
      let (_, _, h5) = >>=-ok (refuse_if _ _) _ h4 in
      let (_, subject, h6) = >>=-ok (refuse_if _ _) _ h5 in
      let (_, may, h8) = >>=-ok (check_allowed issuers _ _) _ h6 in
      let (_, signed, h9) = >>=-ok (check_verified _) _ h8 in
      let (_, issued, h10) = >>=-ok (refuse_if _ _) _ h9 in
      let (_, unexpired, h11) = >>=-ok (refuse_if _ _) _ h10 in
      let (_, required, h12) = >>=-ok (refuse_if _ _) _ h11 in
      let p = decoded.payload in
      let issuer = as_string (get (js "iss") p) in
      let mark_type = as_string (get (js "trust_mark_type") p) in
      let delegation_jwt = as_string (get (js "delegation") p) in
      let (delegation, checked, h13) =
        >>=-ok (check_delegation platform delegation_jwt issuer mark_type options) _ h12 in
      let same : read_mark platform p delegation ≡ mark = cc h13 in
      rw (← same) (record {
        allowed = check_allowed-IsAllowed issuers mark_type issuer may;
        subject = refuse_if-ok _ _ subject;
        signature = check_verified-ok _ signed;
        issued = refuse_if-ok _ _ issued;
        unexpired = refuse_if-ok _ _ unexpired;
        delegated = λ owner owned.
            let (d, is_there, good) =
              check_delegation-IsDelegated delegation_jwt issuer mark_type delegation owner owned
                (refuse_if-ok _ _ required) checked in
            (d, delegation_jwt, is_there, good);
      })
