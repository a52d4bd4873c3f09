-- ===== src/Chain/Refresh.antt =====
-- `refreshTrustChain` of packages/core/src/trust-chain/refresh.ts, over the search and the
-- validation. What the search comes to is an argument: the chains that it found.
use oidfed.Common.{
  ℕ, ◌≡◌, refl, ◌⊎◌, inl, inr, Bool, false, not, ◌&&◌, List, [], ◌∷◌, if◌then◌else◌, Result, ok,
  err, In, Bool-cases, sym, arith,
}
use oidfed.Chain.Values.{Platform}
use oidfed.Chain.Statement.{ValidationOptions}
use oidfed.Chain.Links.{TrustAnchorSet}
use oidfed.Chain.Validate.{Validated, ValidatedTrustChain, Failed, validate_trust_chain}
use oidfed.Chain.Select.{is_chain_expired}
use oidfed.Chain.Resolve.{TrustChain}

pub data RefreshError : Type 0 where
  nothing_resolved all_failed : RefreshError

module _ (platform : Platform) (options : ValidationOptions) (anchors : TrustAnchorSet) where
  -- The loop over the candidates.
  unfoldable pub first_valid : List TrustChain → Result RefreshError ValidatedTrustChain
  first_valid [] = err all_failed
  first_valid (candidate ∷ candidates) =
      let rest = first_valid candidates in
      elim (validate_trust_chain platform options anchors candidate.statements) [
        | ok validated ↦ ok validated.chain
        | err errors ↦ rest
      ]

  unfoldable pub refresh_trust_chain :
      Bool → ℕ → ValidatedTrustChain → List TrustChain → Result RefreshError ValidatedTrustChain
  refresh_trust_chain force_refresh now chain resolved =
      if not force_refresh && not (is_chain_expired chain now)
      then ok chain
      else elim resolved [ [] ↦ err nothing_resolved | c ∷ cs ↦ first_valid (c ∷ cs) ]

  -- A chain that one of the candidates validates to.
  abbrev pub IsRefreshed : List TrustChain → ValidatedTrustChain → Type 0
  IsRefreshed candidates chain =
      (candidate : TrustChain) × (validated : Validated) × In candidate candidates
      × (validate_trust_chain platform options anchors candidate.statements ≡ ok validated)
      × (validated.chain ≡ chain)

  first_valid-of :
      (candidate : TrustChain) (candidates : List TrustChain) (chain : ValidatedTrustChain)
      (result : Result Failed Validated)
      → validate_trust_chain platform options anchors candidate.statements ≡ result
      → first_valid (candidate ∷ candidates) ≡ ok chain
      → (first_valid candidates ≡ ok chain → IsRefreshed candidates chain)
      → IsRefreshed (candidate ∷ candidates) chain
  unfolding first_valid
  first_valid-of candidate candidates chain (ok validated) e h later =
      let h' : ok validated.chain ≡ ok chain = rw (e, first_valid) at h in
      (candidate, validated, inl refl, e, cc h')
  first_valid-of candidate candidates chain (err errors) e h later =
      let (c, v, m, valid, same) = later (rw (e, first_valid) at h) in (c, v, inr m, valid, same)

  first_valid-IsRefreshed :
      (candidates : List TrustChain) (chain : ValidatedTrustChain)
      → first_valid candidates ≡ ok chain
      → IsRefreshed candidates chain
  unfolding first_valid
  first_valid-IsRefreshed [] chain h = absurd (cc h)
  first_valid-IsRefreshed (candidate ∷ candidates) chain h =
      first_valid-of candidate candidates chain _ refl h (first_valid-IsRefreshed candidates chain)

  IsRefreshed-of :
      (resolved : List TrustChain) (refreshed : ValidatedTrustChain)
      → (elim resolved [ [] ↦ err nothing_resolved | c ∷ cs ↦ first_valid (c ∷ cs) ]) ≡ ok refreshed
      → IsRefreshed resolved refreshed
  IsRefreshed-of [] refreshed h = absurd (cc h)
  IsRefreshed-of (c ∷ cs) refreshed h = first_valid-IsRefreshed (c ∷ cs) refreshed h

  -- A chain that is refreshed is the old one, which has not expired, or the result of a full
  -- validation of one of the chains that the search found.
  pub refresh_trust_chain-IsRefreshed :
      (force_refresh : Bool) (now : ℕ) (chain : ValidatedTrustChain) (resolved : List TrustChain)
      (refreshed : ValidatedTrustChain)
      → refresh_trust_chain force_refresh now chain resolved ≡ ok refreshed
      → ((refreshed ≡ chain) × (is_chain_expired chain now ≡ false))
        ⊎ IsRefreshed resolved refreshed
  unfolding refresh_trust_chain
  refresh_trust_chain-IsRefreshed force_refresh now chain resolved refreshed h =
      elim (Bool-cases (not force_refresh && not (is_chain_expired chain now))) [
        | inl e ↦
            let same : ok chain ≡ ok refreshed = rw e at h in inl (sym (cc same), ground (arith, e))
        | inr e ↦ inr (IsRefreshed-of resolved refreshed (rw e at h))
      ]
