-- ===== src/Chain/Resolve.antt =====
-- `resolveTrustChains` of packages/core/src/trust-chain/resolve.ts: the walk up the authority hints.
-- The branches of `Promise.allSettled` run until they wait for a fetch; what waits is a list, and a
-- step gives any one of the waiting branches its answer. The errors are kept in the order in which
-- they are found, those of rejected promises included.
pub mod Budget
pub mod Route
pub mod Found
use oidfed.Common.{
  ℕ, zero, suc, ◌+◌, ◌-◌, String, Str, js, Dict, get, has, str_eq, any, filter, length, take, leb,
  ltb, Bool, true, false, not, ◌&&◌, ◌||◌, ◌==◌, ◌≡◌, Option, none, some, List, [], ◌∷◌, ◌++◌, map,
  if◌then◌else◌, is_some, In, All,
}
use oidfed.Json.{Json, str}
use oidfed.Chain.Values.{Platform, strict_equal, truthy, as_object, as_array, as_string, as_strings}
use oidfed.Chain.Signatures.{ParsedEntityStatement, decode_entity_statement}
use oidfed.Chain.Links.{Link, TrustAnchorSet}
use oidfed.Chain.Validate.{calculate_chain_expiration}

pub record ResolveOptions : Type 0 where
  pub max_chain_depth : ℕ
  pub max_authority_hints : ℕ
  pub max_total_fetches : ℕ
  -- `authorityHintFilter`, false where the hint is no URL; true where there is no filter.
  pub authority_hint_filter : Str → Str → Bool

pub record TrustChain : Type 0 where
  pub statements : List Str
  pub entity_id : Str
  pub trust_anchor_id : Str
  pub expires_at : ℕ

pub data SearchError : Type 0 where
  depth_exceeded hints_exceeded budget_exhausted identity_mismatch : SearchError
  no_hints undecodable : SearchError
  loop_detected no_fetch_endpoint : Str → SearchError
  fetch_failed rejected : SearchError

-- One hint of an entity: what is known when its branch waits.
pub record Branch : Type 0 where
  pub hint : Str
  pub current : Str
  pub chain_so_far : List Str
  pub visited : List Str
  pub depth : ℕ

-- What a branch waits for: the hint's entity configuration, or, with that token and its payload, the
-- subordinate statement.
pub data Await : Type 0 where
  configuration : Branch → Await
  statement : Branch → Str → Dict Json → Await

pub record Search : Type 0 where
  pub remaining : ℕ
  pub chains : List TrustChain
  pub errors : List SearchError
  pub incomplete : Bool
  pub waiting : List Await

-- The answer to a fetch: a token, an error, or a promise that is rejected.
pub data Answer : Type 0 where
  fetched : Str → Answer
  failed refused : Answer

abbrev pub report_error : SearchError → Search → Search
report_error e state = record state { errors = state.errors ++ e ∷ [] }

abbrev pub cut_short : SearchError → Search → Search
cut_short e state = record state { errors = state.errors ++ e ∷ []; incomplete = true }

abbrev pub mark_incomplete : Bool → Search → Search
mark_incomplete true state = record state { incomplete = true }
mark_incomplete false state = state

-- `fetchBudget.remaining--` and the fetch, or the error of a spent budget.
unfoldable pub fetch : Await → Search → Search
fetch await state = elim state.remaining [
  | zero ↦ cut_short budget_exhausted state
  | suc left ↦ record state { remaining = left; waiting = state.waiting ++ await ∷ [] }
]

-- A hint's branch up to its first fetch.
unfoldable pub start_hint : Str → List Str → List Str → ℕ → Search → Str → Search
start_hint current chain_so_far visited depth state hint =
    if any (str_eq hint) visited
    then report_error (loop_detected hint) state
    else fetch
        (configuration (record {
          hint = hint;
          current = current;
          chain_so_far = chain_so_far;
          visited = hint ∷ visited;
          depth = depth;
        }))
        state

unfoldable pub start_hints : Str → List Str → List Str → ℕ → Search → List Str → Search
start_hints current chain_so_far visited depth state [] = state
start_hints current chain_so_far visited depth state (hint ∷ hints) =
    start_hints current chain_so_far visited depth
      (start_hint current chain_so_far visited depth state hint) hints

module _ (platform : Platform) (options : ResolveOptions) (anchors : TrustAnchorSet)
    (entity_id : Str) where
  -- `currentHints.length > maxHints`
  abbrev pub check_hints : List Str → Search → Search
  check_hints hints state =
      if ltb options.max_authority_hints (length hints)
      then cut_short hints_exceeded state
      else state

  -- `buildChains`, up to the fetches that it starts.
  unfoldable pub build_chains : Bool → Str → List Str → List Str → List Str → ℕ → Search → Search
  build_chains aborted current hints chain_so_far visited depth state =
      if ltb options.max_chain_depth depth
      then cut_short depth_exceeded state
      else if aborted
      then mark_incomplete true state
      else start_hints current chain_so_far visited depth (check_hints hints state) (
          filter (λ hint. options.authority_hint_filter hint current)
            (take options.max_authority_hints hints))

  abbrev pub hints_of : Dict Json → List Str
  hints_of payload = as_strings (get (js "authority_hints") payload)

  -- `payload.metadata?.federation_entity?.federation_fetch_endpoint`
  abbrev pub fetch_endpoint : Dict Json → Option Json
  fetch_endpoint payload =
      get (js "federation_fetch_endpoint")
        (as_object (get (js "federation_entity") (as_object (get (js "metadata") payload))))

  -- The links of tokens that all decode.
  unfoldable pub decode_all : List Str → Option (List Link)
  decode_all [] = some []
  decode_all (jwt ∷ chain) =
      let rest = decode_all chain in
      elim (decode_entity_statement platform jwt) [
        | none ↦ none
        | some parsed ↦ elim rest [ none ↦ none | some links ↦ some ((jwt, parsed) ∷ links) ]
      ]

  abbrev pub expiry_of : List Link → ℕ
  expiry_of [] = 0
  expiry_of (link ∷ links) = calculate_chain_expiration platform link links

  -- `chains.push(...)`, where every statement decodes.
  unfoldable pub add_chain : List Str → Str → Search → Search
  add_chain full_chain anchor state = elim (decode_all full_chain) [
    | none ↦ state
    | some links ↦ record state {
      chains =
          state.chains
          ++ (record {
            statements = full_chain;
            entity_id = entity_id;
            trust_anchor_id = anchor;
            expires_at = expiry_of links;
          })
            ∷ [];
    }
  ]

  -- Behind the fetch of the hint's configuration.
  unfoldable pub on_configuration : Branch → Str → Search → Search
  on_configuration branch jwt state = elim (decode_entity_statement platform jwt) [
    | none ↦ report_error undecodable state
    | some decoded ↦
        if truthy platform.reading (fetch_endpoint decoded.payload)
        then fetch (statement branch jwt decoded.payload) state
        else report_error (no_fetch_endpoint branch.hint) state
  ]

  -- Behind the fetch of the subordinate statement.
  unfoldable pub on_statement : Bool → Branch → Str → Dict Json → Str → Search → Search
  on_statement aborted branch configuration_jwt payload jwt state =
      if has branch.hint anchors
      then add_chain (branch.chain_so_far ++ jwt ∷ configuration_jwt ∷ []) branch.hint state
      else elim (hints_of payload) [
        | [] ↦ report_error no_hints state
        | hint ∷ hints ↦
            build_chains aborted branch.hint (hint ∷ hints) (branch.chain_so_far ++ jwt ∷ [])
              branch.visited (branch.depth + 1) state
      ]

  -- A branch with its answer.
  unfoldable pub resume : Bool → Await → Answer → Search → Search
  resume aborted await failed state = report_error fetch_failed state
  resume aborted await refused state = mark_incomplete aborted (report_error rejected state)
  resume aborted (configuration branch) (fetched jwt) state = on_configuration branch jwt state
  resume aborted (statement branch configuration_jwt payload) (fetched jwt) state =
      on_statement aborted branch configuration_jwt payload jwt state

  abbrev pub start : Search
  start = record {
    remaining = options.max_total_fetches;
    chains = [];
    errors = [];
    incomplete = false;
    waiting = [];
  }

  abbrev pub is_leaf : Dict Json → Bool
  is_leaf payload =
      strict_equal (get (js "iss") payload) (get (js "sub") payload)
      && strict_equal (get (js "iss") payload) (some (str entity_id))

  -- A leaf that has no hints is a trust anchor, or has no chain.
  abbrev pub end_at_leaf : Str → Search → Search
  end_at_leaf jwt state =
      if has entity_id anchors
      then add_chain (jwt ∷ []) entity_id state
      else report_error no_hints state

  -- Behind the leaf's configuration, which decodes.
  unfoldable pub on_leaf : Bool → Str → Dict Json → Search → Search
  on_leaf aborted jwt payload state =
      if is_leaf payload
      then (elim (hints_of payload) [
        | [] ↦ end_at_leaf jwt state
        | hint ∷ hints ↦
            build_chains aborted entity_id (hint ∷ hints) (jwt ∷ []) (entity_id ∷ []) 1 state
      ])
      else report_error identity_mismatch state

  abbrev pub spend : Search → Search
  spend state = record state { remaining = state.remaining - 1 }

  abbrev pub on_leaf_jwt : Bool → Str → Search → Search
  on_leaf_jwt aborted jwt state = elim (decode_entity_statement platform jwt) [
    | none ↦ report_error undecodable state
    | some decoded ↦ on_leaf aborted jwt decoded.payload state
  ]

  -- The start of a search, with the leaf's token if the fetch gives one. (A rejected promise there
  -- rejects the call.)
  unfoldable pub begin : Bool → Option Str → Search
  begin aborted leaf =
      if options.max_total_fetches == 0 then cut_short budget_exhausted start else elim leaf [
        | none ↦ mark_incomplete aborted (report_error fetch_failed (spend start))
        | some jwt ↦ on_leaf_jwt aborted jwt (spend start)
      ]

  -- The result, when nothing waits any more.
  abbrev pub finish : Bool → Search → Search
  finish aborted state = mark_incomplete aborted state

  -- One waiting branch, any of them, is given an answer.
  pub data Step : Search → Search → Type 0 where
    answer :
        (state : Search) (before after : List Await) (await : Await) (reply : Answer)
        (aborted : Bool)
        → state.waiting ≡ before ++ await ∷ after
        → Step state (resume aborted await reply (record state { waiting = before ++ after }))

  -- A number of steps.
  pub data Run : Search → ℕ → Search → Type 0 where
    still : {state : Search} → Run state 0 state
    next :
        {first mid last : Search} {n : ℕ} → Run first n mid → Step mid last → Run first (suc n) last
