-- ===== src/Chain/Statement.antt =====
-- The checks of one statement of a chain: the body of the second loop of `validateTrustChainImpl` in
-- packages/core/src/trust-chain/validate.ts.
pub mod Laws
use oidfed.Common.{
  ℕ, ◌+◌, String, Str, js, Dict, get, has, str_eq, any, filter, ltb, Bool, true, false, not, ◌&&◌,
  ◌||◌, ◌==◌, Option, none, some, List, [], ◌∷◌, ◌++◌, map, if◌then◌else◌,
}
use oidfed.Json.{Json, null, num, str, arr, obj, entries, elems}
use oidfed.Authority.Shape.{standard_entity_statement_claims}
use oidfed.Policy.Operators.{PolicyOperatorDefinition}
use oidfed.Chain.Values.{
  Jwk, Platform, Reading, natural, negative, no_safe_integer, strict_equal, truthy, is_after,
  is_before, as_object, as_array, as_string, is_object, values_of, is_in,
}
use oidfed.Chain.Errors.{
  ValidationError, trust_chain_invalid, expired, unsupported_alg, field_error, add_if, flat_map,
  concat,
}
use oidfed.Chain.Keys.{supported_algorithms, validate_jwk_set_use_requirement}
use oidfed.Chain.Signatures.{ParsedEntityStatement, entity_statement_typ, is_typ, lacks_kid}
use oidfed.Chain.Shape.{validate_raw_statement_shape}

-- The options that the validation reads, with the defaults filled in.
pub record ValidationOptions : Type 0 where
  pub clock_skew_seconds : ℕ
  pub now : ℕ
  pub verbose_errors : Bool
  pub understood_critical_claims : List Str
  pub explicit_registration_audience : Option Str
  pub custom_policy_operators : List PolicyOperatorDefinition
  pub trust_mark_issuer_keys : Dict (List Jwk)

abbrev pub invalid : ℕ → String → ℕ → ValidationError
invalid j name n = field_error trust_chain_invalid j (js name) n

-- A number that is no safe integer, or one that the test refuses.
abbrev pub check_time :
    ValidationError → ValidationError → (Reading → Bool) → Reading → List ValidationError
check_time not_safe refused test no_safe_integer = not_safe ∷ []
check_time not_safe refused test r = add_if (test r) refused

unfoldable pub check_alg : Option Json → ℕ → List ValidationError
check_alg alg j =
    add_if
      (not (elim alg [
        | some (str a) ↦
            not (str_eq a []) && not (str_eq a (js "none")) && is_in supported_algorithms a
        | _ ↦ false
      ]))
      (field_error unsupported_alg j (js "alg") 7)

-- Nulls right below an entity type.
unfoldable pub check_nulls : Option Json → ℕ → List ValidationError
check_nulls metadata j =
    flat_map
      (λ meta_obj.
        flat_map (λ val. elim val [ null ↦ invalid j "metadata" 16 ∷ [] | _ ↦ [] ])
          (values_of (some meta_obj)))
      (values_of metadata)

unfoldable pub check_federation_entity : Dict Json → ℕ → List ValidationError
check_federation_entity meta j = concat (
    map
      (λ forbidden.
        add_if (has (js forbidden) (as_object (get (js "federation_entity") meta)))
          (invalid j "metadata" 16))
      ("jwks" ∷ "jwks_uri" ∷ "signed_jwks_uri" ∷ []))

-- `openid_provider.issuer` and `oauth_authorization_server.issuer`
unfoldable pub check_issuer : String → Dict Json → Option Json → ℕ → List ValidationError
check_issuer entity_type meta sub j =
    let block = as_object (get (js entity_type) meta) in
    add_if (has (js "issuer") block && not (strict_equal (get (js "issuer") block) sub))
      (invalid j "metadata" 16)

-- `metaObj.jwks.keys`, where each is what the tests want.
abbrev pub inline_keys : Json → Option (List Jwk)
inline_keys meta_obj =
    elim (get (js "keys") (as_object (get (js "jwks") (as_object (some meta_obj))))) [
      | some (arr ks) ↦ some (map (λ k. as_object (some k)) (elems ks))
      | _ ↦ none
    ]

unfoldable pub check_inline_jwks : Str × Json → ℕ → List ValidationError
check_inline_jwks (entity_type, meta_obj) j =
    if str_eq entity_type (js "federation_entity") then [] else elim (inline_keys meta_obj) [
      | none ↦ []
      | some ks ↦ add_if (not (validate_jwk_set_use_requirement ks)) (invalid j "metadata" 16)
    ]

-- A payload's metadata, entry by entry. An array has no named block, but its elements are walked as
-- entries.
abbrev pub metadata_entries : Option Json → Dict Json
metadata_entries (some (obj fs)) = entries fs
metadata_entries (some (arr vs)) = map (λ v. ([], v)) (elems vs)
metadata_entries _ = []

-- The loop over `critClaims` that finds duplicates.
unfoldable pub check_duplicates : List Json → List Json → ℕ → List ValidationError
check_duplicates seen [] j = []
check_duplicates seen (claim ∷ claims) j =
    add_if (any (λ c. strict_equal (some c) (some claim)) seen) (invalid j "crit" 13)
    ++ check_duplicates (claim ∷ seen) claims j

abbrev pub is_ec : Dict Json → Bool
is_ec payload = strict_equal (get (js "iss") payload) (get (js "sub") payload)

abbrev pub ec_only_claims : List String
ec_only_claims =
    "authority_hints" ∷ "trust_anchor_hints" ∷ "trust_marks" ∷ "trust_mark_issuers"
    ∷ "trust_mark_owners" ∷ []

abbrev pub ss_only_claims : List String
ss_only_claims = "metadata_policy" ∷ "metadata_policy_crit" ∷ "constraints" ∷ "source_endpoint" ∷ []

abbrev pub foreign_ec : Dict Json → ℕ → String → List ValidationError
foreign_ec payload j claim =
    add_if (has (js claim) payload && not (is_ec payload)) (invalid j claim 14)

abbrev pub foreign_ss : Dict Json → ℕ → String → List ValidationError
foreign_ss payload j claim = add_if (has (js claim) payload && is_ec payload) (invalid j claim 17)

-- The claims that only the other kind of statement may have.
unfoldable pub check_kind : Dict Json → ℕ → List ValidationError
check_kind payload j =
    flat_map (foreign_ec payload j) ec_only_claims ++ flat_map (foreign_ss payload j) ss_only_claims

abbrev pub is_empty_array : Option Json → Bool
is_empty_array (some (arr vs)) = elim (elems vs) [ [] ↦ true | v ∷ rest ↦ false ]
is_empty_array _ = false

abbrev pub is_allowed_audience : Option Str → Option Json → ℕ → Bool
is_allowed_audience none aud j = false
is_allowed_audience (some audience) aud j = j == 0 && strict_equal aud (some (str audience))

unfoldable pub check_registration : Option Str → Dict Json → ℕ → List ValidationError
check_registration audience payload j =
    add_if (has (js "aud") payload && not (is_allowed_audience audience (get (js "aud") payload) j))
      (invalid j "aud" 26)
    ++ add_if (has (js "trust_anchor") payload) (invalid j "trust_anchor" 27)

abbrev pub names : List Str → Json → Bool
names set (str claim) = any (str_eq claim) set
names set _ = false

module _ (platform : Platform) where
  -- `claim in p`
  abbrev pub is_claim_of : Dict Json → Json → Bool
  is_claim_of payload (str claim) = has claim payload
  is_claim_of payload v = has (platform.to_string v) payload

  -- One critical claim.
  unfoldable pub check_crit_claim : List Str → Dict Json → ℕ → Json → List ValidationError
  check_crit_claim understood payload j claim =
      add_if (names standard_entity_statement_claims claim || not (names understood claim))
        (invalid j "crit" 13)
      ++ add_if (not (is_claim_of payload claim)) (invalid j "crit" 13)

  unfoldable pub check_crit : List Str → Dict Json → ℕ → List ValidationError
  check_crit understood payload j =
      let claims = as_array (get (js "crit") payload) in
      check_duplicates [] claims j ++ flat_map (check_crit_claim understood payload j) claims

  abbrev pub missing : Dict Json → ℕ → String → ℕ → List ValidationError
  missing payload j claim n =
      add_if (not (truthy platform.reading (get (js claim) payload))) (invalid j claim n)

  abbrev pub read_time : (Reading → List ValidationError) → Option Json → List ValidationError
  read_time check (some (num n)) = check (platform.reading n)
  read_time check _ = []

  unfoldable pub check_metadata : Dict Json → ℕ → List ValidationError
  check_metadata payload j =
      let metadata = get (js "metadata") payload in
      let meta = as_object metadata in
      concat (
        check_nulls metadata j
        ∷ check_federation_entity meta j
        ∷ check_issuer "openid_provider" meta (get (js "sub") payload) j
        ∷ check_issuer "oauth_authorization_server" meta (get (js "sub") payload) j
        ∷ flat_map (λ (e : Str × Json). check_inline_jwks e j) (metadata_entries metadata)
        ∷ [])

  unfoldable pub check_header : Dict Json → ℕ → List ValidationError
  check_header header j = concat (
      add_if (has (js "trust_chain") header) (invalid j "trust_chain" 24)
      ∷ add_if (has (js "peer_trust_chain") header) (invalid j "peer_trust_chain" 25)
      ∷ add_if (lacks_kid platform header) (invalid j "kid" 8)
      ∷ [])

  unfoldable pub check_statement :
      ValidationOptions → ParsedEntityStatement → ℕ → ℕ → List ValidationError
  check_statement options statement j last_index =
      let p = statement.payload in
      let h = statement.header in
      let skew = options.clock_skew_seconds in
      concat (
        validate_raw_statement_shape platform p j last_index
        ∷ missing p j "iss" 1
        ∷ missing p j "sub" 1
        ∷ missing p j "iat" 1
        ∷ missing p j "exp" 1
        ∷ read_time
            (check_time (invalid j "iat" 4) (invalid j "iat" 4) (λ r. is_after r options.now skew))
            (get (js "iat") p)
        ∷ read_time
            (check_time (invalid j "exp" 5) (field_error expired j (js "exp") 5)
              (λ r. is_before r options.now skew))
            (get (js "exp") p)
        ∷ add_if (not (is_typ entity_statement_typ h)) (invalid j "typ" 7)
        ∷ check_alg (get (js "alg") h) j
        ∷ missing p j "jwks" 9
        ∷ check_metadata p j
        ∷ check_crit options.understood_critical_claims p j
        ∷ check_kind p j
        ∷ add_if (is_empty_array (get (js "authority_hints") p)) (invalid j "authority_hints" 14)
        ∷ check_registration options.explicit_registration_audience p j
        ∷ check_header h j
        ∷ [])

  -- The loop over the statements.
  unfoldable pub check_statements :
      ValidationOptions → List ParsedEntityStatement → ℕ → ℕ → List ValidationError
  check_statements options [] j last_index = []
  check_statements options (es ∷ rest) j last_index =
      check_statement options es j last_index ++ check_statements options rest (j + 1) last_index
