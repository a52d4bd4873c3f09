-- ===== src/Chain/Statement/Laws.antt =====
-- What is known of a statement against which no check has anything.
use oidfed.Common.{
  ℕ, ◌+◌, ◌≤◌, String, Str, js, Dict, get, has, ◌≡◌, refl, Bool, true, false, not, Option, some,
  List, [], ◌∷◌, In, arith,
}
use oidfed.Json.{Json, num, str}
use oidfed.Authority.Shape.{standard_entity_statement_claims}
use oidfed.Chain.Values.{Platform, Reading, natural, truthy, is_after, is_before, as_array, is_in}
use oidfed.Chain.Errors.{
  ValidationError, concat-All, map-nil, flat_map, flat_map-nil, append-nil, add_if, add_if-nil,
  field_error, expired,
}
use oidfed.Chain.Keys.{supported_algorithms}
use oidfed.Chain.Signatures.{ParsedEntityStatement, is_typ, entity_statement_typ, lacks_kid}
use oidfed.Chain.Shape.{validate_raw_statement_shape, add_schema_issues, schema_of}
use oidfed.Chain.Statement.{
  ValidationOptions, check_statement, check_statements, check_time, check_alg, check_crit,
  check_crit_claim, check_duplicates, check_kind, check_header, check_registration, read_time,
  missing, names, is_claim_of, is_ec, invalid, foreign_ec, foreign_ss, ec_only_claims,
  ss_only_claims,
}

check_kind-nil :
    (payload : Dict Json) (j : ℕ)
    → check_kind payload j ≡ []
    → ((claim : String)
        → In claim ec_only_claims
        → has (js claim) payload ≡ true
        → is_ec payload ≡ true)
      × ((claim : String)
          → In claim ss_only_claims
          → has (js claim) payload ≡ true
          → is_ec payload ≡ false)
unfolding check_kind
check_kind-nil payload j h =
    let (ec, ss) = append-nil (flat_map (foreign_ec payload j) ec_only_claims) _ h in
    (
      λ claim m there.
          let e = add_if-nil _ _ (flat_map-nil (foreign_ec payload j) ec_only_claims claim ec m) in
          ground (arith, e, there),
      λ claim m there.
          let e = add_if-nil _ _ (flat_map-nil (foreign_ss payload j) ss_only_claims claim ss m) in
          ground (arith, e, there),
    )

module _ (platform : Platform) where
  -- A claim that is understood, is no standard claim, and is there.
  abbrev pub IsUnderstood : List Str → Dict Json → Json → Type 0
  IsUnderstood understood payload claim =
      (names standard_entity_statement_claims claim ≡ false)
      × (names understood claim ≡ true)
      × (is_claim_of platform payload claim ≡ true)

  -- What the checks leave of a statement at a place of a chain.
  pub record IsAccepted (options : ValidationOptions) (statement : ParsedEntityStatement)
      (j last_index : ℕ) : Type 0 where
    pub schema :
        platform.schema_issues (schema_of platform statement.payload j last_index) statement.payload
        ≡ []
    pub issuer : truthy platform.reading (get (js "iss") statement.payload) ≡ true
    pub subject : truthy platform.reading (get (js "sub") statement.payload) ≡ true
    pub keys : truthy platform.reading (get (js "jwks") statement.payload) ≡ true
    pub typ : is_typ entity_statement_typ statement.header ≡ true
    pub alg :
        (a : Str) × (get (js "alg") statement.header ≡ some (str a))
        × (is_in supported_algorithms a ≡ true)
    pub kid : lacks_kid platform statement.header ≡ false
    pub issued :
        (n t : ℕ)
        → get (js "iat") statement.payload ≡ some (num n)
        → platform.reading n ≡ natural t
        → t ≤ options.now + options.clock_skew_seconds
    pub unexpired :
        (n t : ℕ)
        → get (js "exp") statement.payload ≡ some (num n)
        → platform.reading n ≡ natural t
        → options.now ≤ t + options.clock_skew_seconds
    pub critical :
        (claim : Json)
        → In claim (as_array (get (js "crit") statement.payload))
        → IsUnderstood options.understood_critical_claims statement.payload claim
    pub configuration_claims :
        (claim : String)
        → In claim ec_only_claims
        → has (js claim) statement.payload ≡ true
        → is_ec statement.payload ≡ true
    pub statement_claims :
        (claim : String)
        → In claim ss_only_claims
        → has (js claim) statement.payload ≡ true
        → is_ec statement.payload ≡ false
    pub no_trust_anchor : has (js "trust_anchor") statement.payload ≡ false

  missing-nil :
      (payload : Dict Json) (j : ℕ) (claim : String) (n : ℕ)
      → missing platform payload j claim n ≡ []
      → truthy platform.reading (get (js claim) payload) ≡ true
  missing-nil payload j claim n h =
      ground (arith, add_if-nil (not (truthy platform.reading (get (js claim) payload))) _ h)

  check_time-nil :
      (not_safe refused : ValidationError) (test : Reading → Bool) (v : Option Json) (n t : ℕ)
      → read_time platform (check_time not_safe refused test) v ≡ []
      → v ≡ some (num n)
      → platform.reading n ≡ natural t
      → test (natural t) ≡ false
  check_time-nil not_safe refused test v n t h e r =
      let h' : check_time not_safe refused test (natural t) ≡ [] = rw r at (rw e at h) in
      add_if-nil (test (natural t)) refused h'

  check_alg-nil :
      (alg : Option Json) (j : ℕ)
      → check_alg alg j ≡ []
      → (a : Str) × (alg ≡ some (str a)) × (is_in supported_algorithms a ≡ true)
  unfolding check_alg
  check_alg-nil (some (str a)) j h = let e = add_if-nil _ _ h in (a, refl, ground (arith, e))
  check_alg-nil _ j h = cc

  check_crit-nil :
      (understood : List Str) (payload : Dict Json) (j : ℕ) (claim : Json)
      → check_crit platform understood payload j ≡ []
      → In claim (as_array (get (js "crit") payload))
      → IsUnderstood understood payload claim
  unfolding check_crit check_crit_claim
  check_crit-nil understood payload j claim h m =
      let claims = as_array (get (js "crit") payload) in
      let one =
        flat_map-nil (check_crit_claim platform understood payload j) claims claim
          (append-nil (check_duplicates [] claims j) _ h).1 m in
      let (known, there) = append-nil (add_if _ _) (add_if _ _) one in
      let known' = add_if-nil _ _ known in
      let there' = add_if-nil _ _ there in ground (arith, known', there')

  check_statement-IsAccepted :
      (options : ValidationOptions) (statement : ParsedEntityStatement) (j last_index : ℕ)
      → check_statement platform options statement j last_index ≡ []
      → IsAccepted options statement j last_index
  unfolding check_statement check_header check_registration validate_raw_statement_shape
      add_schema_issues
  check_statement-IsAccepted options statement j last_index h =
      let (
        shape,
        (
          iss,
          (
            sub,
            (
              iat,
              (
                exp,
                (
                  issued,
                  (
                    fresh,
                    (typ, (alg, (jwks, (meta, (crit, (kind, (hints, (reg, (header, _))))))))),
                  ),
                ),
              ),
            ),
          ),
        ),
      ) =
        concat-All _ h in
      let issues = (concat-All _ shape).0 in
      record {
        schema = map-nil _ _ (issues);
        issuer = missing-nil statement.payload j "iss" 1 iss;
        subject = missing-nil statement.payload j "sub" 1 sub;
        keys = missing-nil statement.payload j "jwks" 9 jwks;
        typ = (let k = add_if-nil _ _ typ in ground (arith, k));
        alg = check_alg-nil _ j alg;
        kid = add_if-nil _ _ (concat-All _ header).1.1.0;
        issued = λ n t e r.
            let k =
              check_time-nil (invalid j "iat" 4) (invalid j "iat" 4)
                (λ x. is_after x options.now options.clock_skew_seconds)
                (get (js "iat") statement.payload) n t issued e r in
            ground (arith, k);
        unexpired = λ n t e r.
            let k =
              check_time-nil (invalid j "exp" 5) (field_error expired j (js "exp") 5)
                (λ x. is_before x options.now options.clock_skew_seconds)
                (get (js "exp") statement.payload) n t fresh e r in
            ground (arith, k);
        critical = λ claim m.
            check_crit-nil options.understood_critical_claims statement.payload j claim crit m;
        configuration_claims =
            λ claim m there. (check_kind-nil statement.payload j kind).0 claim m there;
        statement_claims =
            λ claim m there. (check_kind-nil statement.payload j kind).1 claim m there;
        no_trust_anchor = add_if-nil _ _ (append-nil (add_if _ _) (add_if _ _) reg).1;
      }

  -- Each statement at its place.
  abbrev pub AllAccepted : ValidationOptions → List ParsedEntityStatement → ℕ → ℕ → Type 0
  AllAccepted options [] j last_index = Unit
  AllAccepted options (es ∷ rest) j last_index =
      IsAccepted options es j last_index × AllAccepted options rest (j + 1) last_index

  pub check_statements-AllAccepted :
      (options : ValidationOptions) (statements : List ParsedEntityStatement) (j last_index : ℕ)
      → check_statements platform options statements j last_index ≡ []
      → AllAccepted options statements j last_index
  unfolding check_statements
  check_statements-AllAccepted options [] j last_index h = tt
  check_statements-AllAccepted options (es ∷ rest) j last_index h =
      let (first, others) = append-nil (check_statement platform options es j last_index) _ h in
      (
        check_statement-IsAccepted options es j last_index first,
        check_statements-AllAccepted options rest (j + 1) last_index others,
      )
