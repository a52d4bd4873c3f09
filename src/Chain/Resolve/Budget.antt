-- ===== src/Chain/Resolve/Budget.antt =====
-- Every state ends: a step takes one branch from those that wait, and each that it starts takes one
-- fetch from the budget.
use oidfed.Common.{
  ℕ, zero, suc, ◌+◌, ◌-◌, ◌≤◌, ◌==◌, Str, Dict, has, any, length, ltb, str_eq, ◌≡◌, refl, ◌∙◌, ap,
  Bool, true, false, Option, none, some, List, [], ◌∷◌, ◌++◌, arith, inl, inr, Bool-cases,
  Option-cases,
}
use oidfed.Json.{Json}
use oidfed.Chain.Values.{Platform, truthy}
use oidfed.Chain.Signatures.{decode_entity_statement}
use oidfed.Chain.Links.{TrustAnchorSet}
use oidfed.Chain.Resolve.{
  ResolveOptions, Search, Await, Branch, Answer, configuration, statement, fetched, failed, refused,
  fetch, start_hint, start_hints, build_chains, check_hints, add_chain, decode_all,
  on_configuration, on_statement, on_leaf, on_leaf_jwt, is_leaf, end_at_leaf, spend, start,
  fetch_failed, resume, begin, Step, answer, Run, still, next, hints_of, fetch_endpoint,
  mark_incomplete, report_error, no_hints, rejected,
}

-- The fetches that may still be started, and the branches that wait for one.
abbrev pub potential : Search → ℕ
potential state = state.remaining + length state.waiting

pub length-append {ℓ} : {A : Type ℓ} (xs ys : List A) → length (xs ++ ys) ≡ length xs + length ys
length-append [] ys = omega arith
length-append (x ∷ xs) ys = ground (arith, length-append xs ys)

potential-fetch_of :
    (left : ℕ) (await : Await) (state : Search)
    → state.remaining ≡ left
    → potential (fetch await state) ≡ potential state
unfolding fetch
potential-fetch_of zero await state e = rw (e, fetch) (ground (arith, e))
potential-fetch_of (suc left) await state e =
    rw (e, fetch) (ground (arith, e, length-append state.waiting (await ∷ [])))

potential-fetch : (await : Await) (state : Search) → potential (fetch await state) ≡ potential state
potential-fetch await state = potential-fetch_of state.remaining await state refl

potential-start_hint :
    (current : Str) (chain visited : List Str) (depth : ℕ) (state : Search) (hint : Str)
    → potential (start_hint current chain visited depth state hint) ≡ potential state
unfolding start_hint
potential-start_hint current chain visited depth state hint =
    elim (Bool-cases (any (str_eq hint) visited)) [
      | inl e ↦ rw e refl
      | inr e ↦ rw e (potential-fetch _ state)
    ]

potential-start_hints :
    (current : Str) (chain visited : List Str) (depth : ℕ) (state : Search) (hints : List Str)
    → potential (start_hints current chain visited depth state hints) ≡ potential state
unfolding start_hints
potential-start_hints current chain visited depth state [] = refl
potential-start_hints current chain visited depth state (hint ∷ hints) =
    potential-start_hints current chain visited depth
      (start_hint current chain visited depth state hint) hints
    ∙ potential-start_hint current chain visited depth state hint

potential-mark :
    (aborted : Bool) (state : Search) → potential (mark_incomplete aborted state) ≡ potential state
potential-mark true state = refl
potential-mark false state = refl

module _ (platform : Platform) (options : ResolveOptions) (anchors : TrustAnchorSet)
    (entity_id : Str) where
  potential-check_hints :
      (hints : List Str) (state : Search)
      → potential (check_hints platform options anchors entity_id hints state) ≡ potential state
  potential-check_hints hints state =
      elim (Bool-cases (ltb options.max_authority_hints (length hints))) [
        | inl e ↦ rw e refl
        | inr e ↦ rw e refl
      ]

  potential-build_chains :
      (aborted : Bool) (current : Str) (hints chain visited : List Str) (depth : ℕ) (state : Search)
      → potential (
          build_chains platform options anchors entity_id aborted current hints chain visited depth
            state)
        ≡ potential state
  unfolding build_chains
  potential-build_chains aborted current hints chain visited depth state =
      elim (Bool-cases (ltb options.max_chain_depth depth)) [
        | inl e ↦ rw e refl
        | inr e ↦ elim (Bool-cases aborted) [
          | inl e' ↦ rw (e, e') refl
          | inr e' ↦
              rw (e, e')
                (potential-start_hints current chain visited depth _ _
                  ∙ potential-check_hints hints state)
        ]
      ]

  potential-add_chain :
      (chain : List Str) (anchor : Str) (state : Search)
      → potential (add_chain platform options anchors entity_id chain anchor state)
        ≡ potential state
  unfolding add_chain
  potential-add_chain chain anchor state =
      elim (Option-cases (decode_all platform options anchors entity_id chain)) [
        | inl e ↦ rw (e, add_chain) refl
        | inr (links, e) ↦ rw (e, add_chain) refl
      ]

  potential-on_configuration :
      (branch : Branch) (jwt : Str) (state : Search)
      → potential (on_configuration platform options anchors entity_id branch jwt state)
        ≡ potential state
  unfolding on_configuration
  potential-on_configuration branch jwt state =
      elim (Option-cases (decode_entity_statement platform jwt)) [
        | inl e ↦ rw (e, on_configuration) refl
        | inr (decoded, e) ↦
            elim (Bool-cases (
              truthy platform.reading
                (fetch_endpoint platform options anchors entity_id decoded.payload))) [
                  | inl e' ↦ rw (e, on_configuration) (rw e' (potential-fetch _ state))
                  | inr e' ↦ rw (e, on_configuration) (rw e' refl)
                ]
      ]

  potential-on_statement :
      (aborted : Bool) (branch : Branch) (configuration_jwt : Str) (payload : Dict Json) (jwt : Str)
      (state : Search)
      → potential (
          on_statement platform options anchors entity_id aborted branch configuration_jwt payload
            jwt state)
        ≡ potential state
  unfolding on_statement
  potential-on_statement aborted branch configuration_jwt payload jwt state =
      elim (Bool-cases (has branch.hint anchors)) [
        | inl e ↦ rw e (potential-add_chain _ _ state)
        | inr e ↦ rw e (by_hints (hints_of platform options anchors entity_id payload) refl)
      ]
    where
      by_hints :
          (hints : List Str)
          → hints_of platform options anchors entity_id payload ≡ hints
          → potential (elim hints [
            | [] ↦ report_error no_hints state
            | hint ∷ more ↦
                build_chains platform options anchors entity_id aborted branch.hint
                  (hint ∷ more)
                  (branch.chain_so_far ++ jwt ∷ [])
                  branch.visited
                  (branch.depth + 1)
                  state
          ])
            ≡ potential state
      by_hints [] e = refl
      by_hints (hint ∷ hints) e = potential-build_chains aborted branch.hint _ _ _ _ state

  potential-resume :
      (aborted : Bool) (await : Await) (reply : Answer) (state : Search)
      → potential (resume platform options anchors entity_id aborted await reply state)
        ≡ potential state
  unfolding resume
  potential-resume aborted await failed state = refl
  potential-resume aborted await refused state =
      potential-mark aborted (report_error rejected state)
  potential-resume aborted (configuration branch) (fetched jwt) state =
      potential-on_configuration branch jwt state
  potential-resume aborted (statement branch c payload) (fetched jwt) state =
      potential-on_statement aborted branch c payload jwt state

  Step-potential :
      {first last : Search}
      → Step platform options anchors entity_id first last
      → potential first ≡ suc (potential last)
  Step-potential (answer state before after await reply aborted e) = ground (
    arith,
    potential-resume aborted await reply (record state { waiting = before ++ after }),
    ap length e,
    length-append before (await ∷ after),
    length-append before after,
  )

  -- Whatever branch is answered at each step, and whatever the answers are, the number of steps is
  -- what the fetches that may be started and the branches that wait have become fewer by.
  pub Run-potential :
      {first last : Search} {n : ℕ}
      → Run platform options anchors entity_id first n last
      → n + potential last ≡ potential first
  Run-potential still = omega arith
  Run-potential (next run step) = ground (arith, Run-potential run, Step-potential step)

  potential-on_leaf :
      (aborted : Bool) (jwt : Str) (payload : Dict Json) (state : Search)
      → potential (on_leaf platform options anchors entity_id aborted jwt payload state)
        ≡ potential state
  unfolding on_leaf
  potential-on_leaf aborted jwt payload state =
      elim (Bool-cases (is_leaf platform options anchors entity_id payload)) [
        | inr e ↦ rw e refl
        | inl e ↦ rw e (by_hints (hints_of platform options anchors entity_id payload))
      ]
    where
      by_hints :
          (hints : List Str)
          → potential (elim hints [
            | [] ↦ end_at_leaf platform options anchors entity_id jwt state
            | hint ∷ more ↦
                build_chains platform options anchors entity_id aborted entity_id
                  (hint ∷ more)
                  (jwt ∷ [])
                  (entity_id ∷ [])
                  1
                  state
          ])
            ≡ potential state
      by_hints [] = elim (Bool-cases (has entity_id anchors)) [
        | inl e ↦ rw e (potential-add_chain (jwt ∷ []) entity_id state)
        | inr e ↦ rw e refl
      ]
      by_hints (hint ∷ hints) = potential-build_chains aborted entity_id _ _ _ _ state

  begin-potential :
      (aborted : Bool) (leaf : Option Str)
      → potential (begin platform options anchors entity_id aborted leaf)
        ≤ options.max_total_fetches - 1
  unfolding begin
  begin-potential aborted leaf = elim (Bool-cases (options.max_total_fetches == 0)) [
    | inl e ↦ rw (e, begin) (ground (arith, e))
    | inr e ↦ rw (e, begin) (by_leaf leaf)
  ]
    where
      by_leaf :
          (leaf : Option Str)
          → potential (elim leaf [
            | none ↦ mark_incomplete aborted (
                report_error fetch_failed (
                  spend platform options anchors entity_id
                    (start platform options anchors entity_id)))
            | some jwt ↦ on_leaf_jwt platform options anchors entity_id aborted jwt (
                spend platform options anchors entity_id (start platform options anchors entity_id))
          ])
            ≤ options.max_total_fetches - 1
      by_leaf none = omega (
        arith,
        potential-mark aborted (
            report_error fetch_failed (
              spend platform options anchors entity_id (start platform options anchors entity_id))),
      )
      by_leaf (some jwt) = elim (Option-cases (decode_entity_statement platform jwt)) [
        | inl e ↦ rw (e, on_leaf_jwt) (omega arith)
        | inr (decoded, e) ↦
            rw (e, on_leaf_jwt)
              (omega (
                arith,
                potential-on_leaf aborted jwt decoded.payload (
                    spend platform options anchors entity_id
                      (start platform options anchors entity_id)),
              ))
      ]

  -- A search ends: whatever the entities answer and in whatever order, it takes fewer steps than
  -- the fetches that its options allow, or none where they allow none.
  pub Run-bound :
      (aborted : Bool) (leaf : Option Str) {last : Search} {n : ℕ}
      → Run platform options anchors entity_id
          (begin platform options anchors entity_id aborted leaf)
          n
          last
      → n ≤ options.max_total_fetches - 1
  Run-bound aborted leaf run = omega (arith, Run-potential run, begin-potential aborted leaf)
