-- ===== src/Chain/Resolve/Found.antt =====
-- What a search of Chain/Resolve has found at each point, and what its branches hold that wait.
use oidfed.Common.{
  ℕ, zero, suc, ◌+◌, ◌≤◌, ◌==◌, Str, Dict, has, any, length, ltb, str_eq, ◌≡◌, refl, Bool, true,
  false, Option, none, some, List, [], ◌∷◌, ◌++◌, arith, inl, inr, Bool-cases, Option-cases, All,
}
use oidfed.Json.{Json}
use oidfed.Chain.Values.{Platform, truthy}
use oidfed.Chain.Signatures.{decode_entity_statement}
use oidfed.Chain.Links.{TrustAnchorSet}
use oidfed.Chain.Resolve.{
  ResolveOptions, TrustChain, Search, Await, Branch, Answer, configuration, statement, fetched,
  failed, refused, fetch, start_hint, start_hints, build_chains, check_hints, add_chain, decode_all,
  on_configuration, on_statement, on_leaf, on_leaf_jwt, is_leaf, end_at_leaf, spend, start, resume,
  begin, answer, Run, still, next, hints_of, fetch_endpoint, mark_incomplete, report_error,
  no_hints,
}
use oidfed.Chain.Resolve.Budget.{length-append}
use oidfed.Chain.Resolve.Route.{
  IsHonest, AreHonest, IsPath, at_entity, above, IsRoute, alone, climbed, append_two,
}

All-append : {A : Type 0} (P : A → Type 0) (xs ys : List A) → All P xs → All P ys → All P (xs ++ ys)
All-append P [] ys h k = k
All-append P (x ∷ xs) ys (here, h) k = (here, All-append P xs ys h k)

All-middle :
    {A : Type 0} (P : A → Type 0) (xs : List A) (y : A) (zs : List A)
    → All P (xs ++ y ∷ zs)
    → P y × All P (xs ++ zs)
All-middle P [] y zs (here, h) = (here, h)
All-middle P (x ∷ xs) y zs (here, h) = let (it, rest) = All-middle P xs y zs h in (it, (here, rest))

-- No string stands twice.
abbrev pub Once : List Str → Type 0
Once [] = Unit
Once (x ∷ xs) = (any (str_eq x) xs ≡ false) × Once xs

module _ (Published : Str → Str → Type 0) (Issued : Str → Str → Str → Type 0) (platform : Platform)
    (options : ResolveOptions) (anchors : TrustAnchorSet) (entity_id : Str) where
  -- A chain that is found.
  pub record IsFound (chain : TrustChain) : Type 0 where
    pub bound : length chain.statements ≤ options.max_chain_depth + 2
    pub entity : chain.entity_id ≡ entity_id
    pub anchored : has chain.trust_anchor_id anchors ≡ true
    pub route : IsRoute Published Issued entity_id chain.trust_anchor_id chain.statements

  -- A branch on the way: as many statements as its depth, and no entity twice.
  pub record IsOnWay (branch : Branch) : Type 0 where
    pub statements : length branch.chain_so_far ≡ branch.depth
    pub bound : branch.depth ≤ options.max_chain_depth
    pub once : Once branch.visited
    pub below : List Str
    pub visited : branch.visited ≡ branch.hint ∷ below
    pub path : IsPath Published Issued entity_id branch.current below branch.chain_so_far

  abbrev pub IsWaiting : Await → Type 0
  IsWaiting (configuration branch) = IsOnWay branch
  IsWaiting (statement branch c payload) = IsOnWay branch × Published branch.hint c

  pub record IsGood (state : Search) : Type 0 where
    pub chains : All IsFound state.chains
    pub waiting : All IsWaiting state.waiting

  fetch-IsGood :
      (left : ℕ) (await : Await) (state : Search)
      → state.remaining ≡ left
      → IsWaiting await
      → IsGood state
      → IsGood (fetch await state)
  unfolding fetch
  fetch-IsGood zero await state e w g =
      rw (e, fetch) (record { chains = g.chains; waiting = g.waiting })
  fetch-IsGood (suc left) await state e w g =
      rw (e, fetch)
        (record {
          chains = g.chains;
          waiting = All-append IsWaiting state.waiting (await ∷ []) g.waiting (w, tt);
        })

  start_hint-IsGood :
      (current : Str) (chain visited : List Str) (depth : ℕ) (state : Search) (hint : Str)
      → length chain ≡ depth
      → depth ≤ options.max_chain_depth
      → Once visited
      → IsPath Published Issued entity_id current visited chain
      → IsGood state
      → IsGood (start_hint current chain visited depth state hint)
  unfolding start_hint
  start_hint-IsGood current chain visited depth state hint l b o p g =
      elim (Bool-cases (any (str_eq hint) visited)) [
        | inl e ↦ rw e (record { chains = g.chains; waiting = g.waiting })
        | inr e ↦ rw e (
            fetch-IsGood state.remaining _ state refl
              (record {
                statements = l;
                bound = b;
                once = (e, o);
                below = visited;
                visited = refl;
                path = p;
              })
              g)
      ]

  start_hints-IsGood :
      (current : Str) (chain visited : List Str) (depth : ℕ) (state : Search) (hints : List Str)
      → length chain ≡ depth
      → depth ≤ options.max_chain_depth
      → Once visited
      → IsPath Published Issued entity_id current visited chain
      → IsGood state
      → IsGood (start_hints current chain visited depth state hints)
  unfolding start_hints
  start_hints-IsGood current chain visited depth state [] l b o p g = g
  start_hints-IsGood current chain visited depth state (hint ∷ hints) l b o p g =
      start_hints-IsGood current chain visited depth
        (start_hint current chain visited depth state hint) hints l b o p
        (start_hint-IsGood current chain visited depth state hint l b o p g)

  check_hints-IsGood :
      (hints : List Str) (state : Search)
      → IsGood state
      → IsGood (check_hints platform options anchors entity_id hints state)
  check_hints-IsGood hints state g =
      elim (Bool-cases (ltb options.max_authority_hints (length hints))) [
        | inl e ↦ rw e (record { chains = g.chains; waiting = g.waiting })
        | inr e ↦ rw e g
      ]

  build_chains-IsGood :
      (aborted : Bool) (current : Str) (hints chain visited : List Str) (depth : ℕ) (state : Search)
      → length chain ≡ depth
      → Once visited
      → IsPath Published Issued entity_id current visited chain
      → IsGood state
      → IsGood (
          build_chains platform options anchors entity_id aborted current hints chain visited depth
            state)
  unfolding build_chains
  build_chains-IsGood aborted current hints chain visited depth state l o p g =
      elim (Bool-cases (ltb options.max_chain_depth depth)) [
        | inl e ↦ rw e (record { chains = g.chains; waiting = g.waiting })
        | inr e ↦ elim (Bool-cases aborted) [
          | inl e' ↦ rw (e, e') (record { chains = g.chains; waiting = g.waiting })
          | inr e' ↦
              rw (e, e')
                (start_hints-IsGood current chain visited depth _ _ l (ground (arith, e)) o p
                  (check_hints-IsGood hints state g))
        ]
      ]

  add_chain-IsGood :
      (chain : List Str) (anchor : Str) (state : Search)
      → length chain ≤ options.max_chain_depth + 2
      → has anchor anchors ≡ true
      → IsRoute Published Issued entity_id anchor chain
      → IsGood state
      → IsGood (add_chain platform options anchors entity_id chain anchor state)
  unfolding add_chain
  add_chain-IsGood chain anchor state b a t g =
      elim (Option-cases (decode_all platform options anchors entity_id chain)) [
        | inl e ↦ rw (e, add_chain) g
        | inr (links, e) ↦
            rw (e, add_chain)
              (record {
                chains =
                    All-append IsFound state.chains (_ ∷ []) g.chains
                      (record { bound = b; entity = refl; anchored = a; route = t }, tt);
                waiting = g.waiting;
              })
      ]

  on_configuration-IsGood :
      (branch : Branch) (jwt : Str) (state : Search)
      → IsOnWay branch
      → Published branch.hint jwt
      → IsGood state
      → IsGood (on_configuration platform options anchors entity_id branch jwt state)
  unfolding on_configuration
  on_configuration-IsGood branch jwt state w q g =
      elim (Option-cases (decode_entity_statement platform jwt)) [
        | inl e ↦ rw (e, on_configuration) (record { chains = g.chains; waiting = g.waiting })
        | inr (decoded, e) ↦
            elim (Bool-cases (
              truthy platform.reading
                (fetch_endpoint platform options anchors entity_id decoded.payload))) [
                  | inl e' ↦
                      rw (e, on_configuration)
                        (rw e' (fetch-IsGood state.remaining _ state refl (w, q) g))
                  | inr e' ↦
                      rw (e, on_configuration)
                        (rw e' (record { chains = g.chains; waiting = g.waiting }))
                ]
      ]

  on_statement-IsGood :
      (aborted : Bool) (branch : Branch) (configuration_jwt : Str) (payload : Dict Json) (jwt : Str)
      (state : Search)
      → IsOnWay branch
      → Published branch.hint configuration_jwt
      → Issued branch.hint branch.current jwt
      → IsGood state
      → IsGood (
          on_statement platform options anchors entity_id aborted branch configuration_jwt payload
            jwt state)
  unfolding on_statement
  on_statement-IsGood aborted branch configuration_jwt payload jwt state w q i g =
      elim (Bool-cases (has branch.hint anchors)) [
        | inl e ↦ rw e (
            add_chain-IsGood (branch.chain_so_far ++ jwt ∷ configuration_jwt ∷ []) branch.hint state
              (ground (
                arith,
                w.statements,
                w.bound,
                length-append branch.chain_so_far (jwt ∷ configuration_jwt ∷ []),
              ))
              e (rw append_two (climbed configuration_jwt higher q)) g)
        | inr e ↦ rw e (by_hints (hints_of platform options anchors entity_id payload))
      ]
    where
      fresh : any (str_eq branch.hint) w.below ≡ false
      fresh = (rw w.visited at w.once).0

      higher :
          IsPath Published Issued entity_id branch.hint
            (branch.hint ∷ w.below)
            (branch.chain_so_far ++ jwt ∷ [])
      higher = above branch.hint jwt w.path fresh i

      by_hints :
          (hints : List Str)
          → IsGood (elim hints [
            | [] ↦ report_error no_hints state
            | hint ∷ more ↦
                build_chains platform options anchors entity_id aborted branch.hint
                  (hint ∷ more)
                  (branch.chain_so_far ++ jwt ∷ [])
                  branch.visited
                  (branch.depth + 1)
                  state
          ])
      by_hints [] = record { chains = g.chains; waiting = g.waiting }
      by_hints (hint ∷ hints) =
          build_chains-IsGood aborted branch.hint _ _ branch.visited _ state
            (ground (arith, w.statements, length-append branch.chain_so_far (jwt ∷ []))) w.once
            (rw w.visited higher) g

  resume-IsGood :
      (aborted : Bool) (await : Await) (reply : Answer) (state : Search)
      → IsWaiting await
      → IsHonest Published Issued await reply
      → IsGood state
      → IsGood (resume platform options anchors entity_id aborted await reply state)
  unfolding resume
  resume-IsGood aborted await failed state w q g = record { chains = g.chains; waiting = g.waiting }
  resume-IsGood true await refused state w q g = record { chains = g.chains; waiting = g.waiting }
  resume-IsGood false await refused state w q g = record { chains = g.chains; waiting = g.waiting }
  resume-IsGood aborted (configuration branch) (fetched jwt) state w q g =
      on_configuration-IsGood branch jwt state w q g
  resume-IsGood aborted (statement branch c payload) (fetched jwt) state (w, published) q g =
      on_statement-IsGood aborted branch c payload jwt state w published q g

  answer-IsGood :
      (state : Search) (before after : List Await) (await : Await) (reply : Answer) (aborted : Bool)
      → state.waiting ≡ before ++ await ∷ after
      → IsHonest Published Issued await reply
      → IsGood state
      → IsGood (
          resume platform options anchors entity_id aborted await reply
            (record state { waiting = before ++ after }))
  answer-IsGood state before after await reply aborted e q g =
      let all : All IsWaiting (before ++ await ∷ after) = rw e at g.waiting in
      let (it, rest) = All-middle IsWaiting before await after all in
      resume-IsGood aborted await reply (record state { waiting = before ++ after }) it q
        (record { chains = g.chains; waiting = rest })

  Run-IsGood :
      {first last : Search} {n : ℕ} (run : Run platform options anchors entity_id first n last)
      → AreHonest Published Issued platform options anchors entity_id run
      → IsGood first
      → IsGood last
  Run-IsGood still q g = g
  Run-IsGood (next run (answer state before after await reply aborted e)) (honest, q) g =
      answer-IsGood state before after await reply aborted e q (Run-IsGood run honest g)

  on_leaf-IsGood :
      (aborted : Bool) (jwt : Str) (payload : Dict Json) (state : Search)
      → Published entity_id jwt
      → IsGood state
      → IsGood (on_leaf platform options anchors entity_id aborted jwt payload state)
  unfolding on_leaf
  on_leaf-IsGood aborted jwt payload state q g =
      elim (Bool-cases (is_leaf platform options anchors entity_id payload)) [
        | inr e ↦ rw e (record { chains = g.chains; waiting = g.waiting })
        | inl e ↦ rw e (by_hints (hints_of platform options anchors entity_id payload))
      ]
    where
      by_hints :
          (hints : List Str)
          → IsGood (elim hints [
            | [] ↦ end_at_leaf platform options anchors entity_id jwt state
            | hint ∷ more ↦
                build_chains platform options anchors entity_id aborted entity_id
                  (hint ∷ more)
                  (jwt ∷ [])
                  (entity_id ∷ [])
                  1
                  state
          ])
      by_hints [] = elim (Bool-cases (has entity_id anchors)) [
        | inl e ↦ rw e (add_chain-IsGood (jwt ∷ []) entity_id state (omega arith) e (alone jwt q) g)
        | inr e ↦ rw e (record { chains = g.chains; waiting = g.waiting })
      ]
      by_hints (hint ∷ hints) =
          build_chains-IsGood aborted entity_id _ _ (entity_id ∷ []) _ state refl (refl, tt)
            (at_entity jwt q) g

  mark-IsGood :
      (aborted : Bool) (state : Search) → IsGood state → IsGood (mark_incomplete aborted state)
  mark-IsGood true state g = record { chains = g.chains; waiting = g.waiting }
  mark-IsGood false state g = g

  on_leaf_jwt-IsGood :
      (aborted : Bool) (jwt : Str) (state : Search)
      → Published entity_id jwt
      → IsGood state
      → IsGood (on_leaf_jwt platform options anchors entity_id aborted jwt state)
  on_leaf_jwt-IsGood aborted jwt state q g =
      elim (Option-cases (decode_entity_statement platform jwt)) [
        | inl e ↦ rw (e, on_leaf_jwt) (record { chains = g.chains; waiting = g.waiting })
        | inr (decoded, e) ↦
            rw (e, on_leaf_jwt) (on_leaf-IsGood aborted jwt decoded.payload state q g)
      ]

  begin-IsGood :
      (aborted : Bool) (leaf : Option Str)
      → ((jwt : Str) → leaf ≡ some jwt → Published entity_id jwt)
      → IsGood (begin platform options anchors entity_id aborted leaf)
  unfolding begin
  begin-IsGood aborted none q = elim (Bool-cases (options.max_total_fetches == 0)) [
    | inl e ↦ rw (e, begin) (record { chains = tt; waiting = tt })
    | inr e ↦ rw (e, begin) (mark-IsGood aborted _ (record { chains = tt; waiting = tt }))
  ]
  begin-IsGood aborted (some jwt) q = elim (Bool-cases (options.max_total_fetches == 0)) [
    | inl e ↦ rw (e, begin) (record { chains = tt; waiting = tt })
    | inr e ↦
        rw (e, begin)
          (on_leaf_jwt-IsGood aborted jwt
            (spend platform options anchors entity_id (start platform options anchors entity_id))
            (q jwt refl) (record { chains = tt; waiting = tt }))
  ]

  -- In a run of a search, let every token that answers a fetch be published by the entity that was
  -- asked, or issued by it about the entity below; and let the leaf's token be published by the
  -- entity. Then, whatever the order of the answers, the statements of each chain that is found are
  -- the entity's own token, then one that each superior on a way up without repetition issued about
  -- the entity below it, and last the own token of the superior where the way ends (or the entity's
  -- token alone, where the entity is a trust anchor); this end is the trust anchor of the chain and is
  -- configured; and the chain has at most two statements more than the greatest depth. Each branch
  -- that waits has statements of such a way, as many as its depth, which is within the bound, and has
  -- visited no entity twice.
  pub Run-begin-IsGood :
      (aborted : Bool) (leaf : Option Str) {last : Search} {n : ℕ}
      (run : Run platform options anchors entity_id
        (begin platform options anchors entity_id aborted leaf)
        n
        last)
      → ((jwt : Str) → leaf ≡ some jwt → Published entity_id jwt)
      → AreHonest Published Issued platform options anchors entity_id run
      → IsGood last
  Run-begin-IsGood aborted leaf run q honest = Run-IsGood run honest (begin-IsGood aborted leaf q)
