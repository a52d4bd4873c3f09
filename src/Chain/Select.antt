-- ===== src/Chain/Select.antt =====
-- The use of validated chains in packages/core/src/trust-chain/validate.ts: `isChainExpired`,
-- `chainRemainingTtl`, `shortestChain`, `longestExpiry` and `preferTrustAnchor`.
use oidfed.Common.{
  ℕ, ◌-◌, ◌≤◌, Str, ◌≡◌, ◌↔◌, refl, Bool, true, false, Option, some, List, [], ◌∷◌, length, leb,
  leb→le, filter, get_elem?, str_eq, str_eq_iff, In, inl, inr, In-filter, filter_intro, arith,
}
use oidfed.Authority.Order.{sort, In-sort, sort_intro, sort-IsSorted, IsSorted}
use oidfed.Chain.Validate.{ValidatedTrustChain}

unfoldable pub is_chain_expired : ValidatedTrustChain → ℕ → Bool
is_chain_expired chain now = leb chain.expires_at now

-- `Math.max(0, expiresAt - now)`
unfoldable pub chain_remaining_ttl : ValidatedTrustChain → ℕ → ℕ
chain_remaining_ttl chain now = chain.expires_at - now

abbrev pub is_shorter : ValidatedTrustChain → ValidatedTrustChain → Bool
is_shorter a b = leb (length a.statements) (length b.statements)

abbrev pub is_later : ValidatedTrustChain → ValidatedTrustChain → Bool
is_later a b = leb b.expires_at a.expires_at

unfoldable pub shortest_chain : List ValidatedTrustChain → Option ValidatedTrustChain
shortest_chain chains = get_elem? (sort is_shorter chains) 0

unfoldable pub longest_expiry : List ValidatedTrustChain → Option ValidatedTrustChain
longest_expiry chains = get_elem? (sort is_later chains) 0

abbrev pub ends_at : Str → ValidatedTrustChain → Bool
ends_at ta_id chain = str_eq chain.trust_anchor_id ta_id

unfoldable pub prefer_trust_anchor : Str → List ValidatedTrustChain → Option ValidatedTrustChain
prefer_trust_anchor ta_id chains = elim (filter (ends_at ta_id) chains) [
  | [] ↦ shortest_chain chains
  | chain ∷ matching ↦ shortest_chain (chain ∷ matching)
]

-- What a strategy picks: one of the chains, which the order puts before every one.
pub record IsFirst (precedes : ValidatedTrustChain → ValidatedTrustChain → Bool)
    (chains : List ValidatedTrustChain) (pick : ValidatedTrustChain) : Type 0 where
  pub member : In pick chains
  pub first : (chain : ValidatedTrustChain) → In chain chains → precedes pick chain ≡ true

module _ (precedes : ValidatedTrustChain → ValidatedTrustChain → Bool) where
  head-IsFirst_of :
      (chains sorted : List ValidatedTrustChain) (pick : ValidatedTrustChain)
      → ((chain : ValidatedTrustChain) → precedes chain chain ≡ true)
      → ((chain : ValidatedTrustChain) → In chain sorted → In chain chains)
      → ((chain : ValidatedTrustChain) → In chain chains → In chain sorted)
      → IsSorted precedes sorted
      → get_elem? sorted 0 ≡ some pick
      → IsFirst precedes chains pick
  head-IsFirst_of chains [] pick reflexive from to s h = absurd (cc h)
  head-IsFirst_of chains (x ∷ xs) pick reflexive from to s h =
      let e : x ≡ pick = ground (arith, h) in
      rw (← e) (record {
        member = from x (inl refl);
        first =
            λ chain m. elim (to chain m) [ inl same ↦ rw same (reflexive x) | inr k ↦ s.0 chain k ];
      })

  head-IsFirst :
      (chains : List ValidatedTrustChain) (pick : ValidatedTrustChain)
      → ((x : ValidatedTrustChain) → precedes x x ≡ true)
      → ((x y : ValidatedTrustChain) → precedes x y ≡ false → precedes y x ≡ true)
      → ((x y z : ValidatedTrustChain)
          → precedes x y ≡ true
          → precedes y z ≡ true
          → precedes x z ≡ true)
      → get_elem? (sort precedes chains) 0 ≡ some pick
      → IsFirst precedes chains pick
  head-IsFirst chains pick reflexive total trans h =
      head-IsFirst_of chains (sort precedes chains) pick reflexive
        (λ x m. In-sort precedes x chains m) (λ x m. sort_intro precedes x chains m)
        (sort-IsSorted precedes total trans chains) h

shortest_chain-IsFirst :
    (chains : List ValidatedTrustChain) (pick : ValidatedTrustChain)
    → shortest_chain chains ≡ some pick
    → IsFirst is_shorter chains pick
unfolding shortest_chain
shortest_chain-IsFirst chains pick h =
    head-IsFirst is_shorter chains pick (λ x. ground arith) (λ x y e. ground arith)
      (λ x y z e f. ground arith) h

longest_expiry-IsFirst :
    (chains : List ValidatedTrustChain) (pick : ValidatedTrustChain)
    → longest_expiry chains ≡ some pick
    → IsFirst is_later chains pick
unfolding longest_expiry
longest_expiry-IsFirst chains pick h =
    head-IsFirst is_later chains pick (λ x. ground arith) (λ x y e. ground arith)
      (λ x y z e f. ground arith) h

-- What the strategy for a trust anchor promises.
pub record IsPreferred (ta_id : Str) (chains : List ValidatedTrustChain)
    (pick : ValidatedTrustChain) : Type 0 where
  pub member : In pick chains
  pub at_anchor :
      (chain : ValidatedTrustChain)
      → In chain chains
      → chain.trust_anchor_id ≡ ta_id
      → (pick.trust_anchor_id ≡ ta_id) × (length pick.statements ≤ length chain.statements)
  pub elsewhere :
      ((chain : ValidatedTrustChain) → In chain chains → ends_at ta_id chain ≡ false)
      → (chain : ValidatedTrustChain) → In chain chains
      → length pick.statements ≤ length chain.statements

prefer-IsPreferred_of :
    (ta_id : Str) (chains matching : List ValidatedTrustChain) (pick : ValidatedTrustChain)
    → filter (ends_at ta_id) chains ≡ matching
    → prefer_trust_anchor ta_id chains ≡ some pick
    → IsPreferred ta_id chains pick
unfolding prefer_trust_anchor
prefer-IsPreferred_of ta_id chains [] pick e h =
    let p = shortest_chain-IsFirst chains pick (rw (e, prefer_trust_anchor) at h) in
    record {
      member = p.member;
      at_anchor = λ chain m same.
          let k = filter_intro (ends_at ta_id) chain chains m ((str_eq_iff _ ta_id).1 same) in
          absurd (rw e at k);
      elsewhere = λ none_there chain m. leb→le _ _ (p.first chain m);
    }
prefer-IsPreferred_of ta_id chains (x ∷ xs) pick e h =
    let p = shortest_chain-IsFirst (x ∷ xs) pick (rw (e, prefer_trust_anchor) at h) in
    let here : In pick (filter (ends_at ta_id) chains) = rw e p.member in
    let (m, ends) = In-filter (ends_at ta_id) pick chains here in
    record {
      member = m;
      at_anchor = λ chain n same.
          let k = filter_intro (ends_at ta_id) chain chains n ((str_eq_iff _ ta_id).1 same) in
          let k' : In chain (x ∷ xs) = rw e at k in
          ((str_eq_iff _ ta_id).0 ends, leb→le _ _ (p.first chain k'));
      elsewhere = λ none_there chain n. absurd (cc (none_there pick m, ends));
    }

-- The chain that the strategy for a trust anchor picks is one of the given chains; it ends at the
-- anchor if any of them does, and then has no more statements than any that does; if none does, it
-- has no more statements than any.
pub prefer_trust_anchor-IsPreferred :
    (ta_id : Str) (chains : List ValidatedTrustChain) (pick : ValidatedTrustChain)
    → prefer_trust_anchor ta_id chains ≡ some pick
    → IsPreferred ta_id chains pick
prefer_trust_anchor-IsPreferred ta_id chains pick h =
    prefer-IsPreferred_of ta_id chains (filter (ends_at ta_id) chains) pick refl h

-- A chain's remaining time is nothing exactly if it has expired.
ttl_iff :
    (chain : ValidatedTrustChain) (now : ℕ)
    → (is_chain_expired chain now ≡ true) ↔ (chain_remaining_ttl chain now ≡ 0)
unfolding is_chain_expired chain_remaining_ttl
ttl_iff chain now = ground arith
