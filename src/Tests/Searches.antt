-- ===== src/Tests/Searches.antt =====
-- The search for chains, the limiter, keys, marks and the rest of the chain's parts at concrete
-- inputs.
use oidfed.Common.{
  Str, ◌-◌, ◌≤◌, js, Dict, get, put, str_eq, ◌≡◌, ◌≢◌, ◌⊎◌, refl, true, false, none, some, List, [],
  ◌∷◌, ok, In, arith,
}
use oidfed.Json.{Json, num, str, obj, items, fields, elems, entries}
use oidfed.Chain.Values.{Jwk, Platform, strict_equal, truthy}
use oidfed.Chain.Signatures.{decode_entity_statement}
use oidfed.Chain.Resolve.{
  ResolveOptions, Search, fetched, configuration, statement, begin, on_leaf, build_chains,
  start_hints, start_hint, fetch, resume, on_configuration, Run, still, next, answer, TrustChain,
  Branch,
}
use oidfed.Chain.Resolve.Budget.{Run-bound}
use oidfed.Chain.Keys.{validate_jwk_set_use_requirement}
use oidfed.Chain.Keys.Use.{
  IsForSignatures, IsForEncryption, LacksUse, validate_jwk_set_use_requirement_iff,
}
use oidfed.Common.{In, ◌↔◌}
use oidfed.Chain.Values.{Jwk}
use oidfed.Chain.Resolve.Route.{AreHonest}
use oidfed.Chain.Resolve.Found.{IsGood, Run-begin-IsGood}
use oidfed.Chain.Limiter.{
  Limiter, Operation, acquire, release, run, create_concurrency_limiter, IsLimited, run-IsLimited,
  run-granted,
}
use oidfed.Chain.Duplicates.{scan, value, enough, out_of_fuel}
use oidfed.Chain.Duplicates.Laws.{scan-enough}
use oidfed.Chain.Keys.{select_verification_key, may_verify, strip_private_fields, strip_loop}
use oidfed.Chain.Keys.Laws.{
  IsSelected, select_verification_key-IsSelected, strip_private_fields_lem,
}
use oidfed.Policy.Apply.{Params, Metadata, read}
use oidfed.Chain.Metadata.{add_context}
use oidfed.Chain.Metadata.Laws.{add_context-keeps}
use oidfed.Chain.Validate.{ValidatedTrustChain, validate_trust_chain}
use oidfed.Chain.Select.{is_chain_expired}
use oidfed.Chain.Refresh.{
  refresh_trust_chain, first_valid, IsRefreshed, refresh_trust_chain-IsRefreshed,
}
use oidfed.Tests.Chains.{platform, options, anchors, jwk, leaf_payload, tokens, validated, valid}

abbrev anchor_configuration : Dict Json
anchor_configuration =
    (js "iss", str (js "T"))
    ∷ (js "sub", str (js "T"))
    ∷ (
      js "metadata",
      obj (
          fields (
            (
              js "federation_entity",
              obj (fields ((js "federation_fetch_endpoint", str (js "u")) ∷ [])),
            )
            ∷ [])),
    )
    ∷ []

-- With the anchor's own token.
abbrev network : Platform
network = record platform {
  decode_jwt =
      λ jwt. get jwt ((js "l", leaf_payload) ∷ (js "t", anchor_configuration) ∷ (js "s", []) ∷ []);
}

abbrev limits : ResolveOptions
limits = record {
  max_chain_depth = 3;
  max_authority_hints = 2;
  max_total_fetches = 5;
  authority_hint_filter = λ hint current. true;
}

abbrev first : Search
first = begin network limits anchors (js "L") false (some (js "l"))

abbrev hint_branch : Branch
hint_branch = record {
  hint = js "T";
  current = js "L";
  chain_so_far = js "l" ∷ [];
  visited = js "T" ∷ js "L" ∷ [];
  depth = 1;
}

abbrev second : Search
second =
    resume network limits anchors (js "L") false (configuration hint_branch) (fetched (js "t"))
      (record first { waiting = [] })

abbrev third : Search
third =
    resume network limits anchors (js "L") false
      (statement hint_branch (js "t") anchor_configuration) (fetched (js "s"))
      (record second { waiting = [] })

two_steps : Run network limits anchors (js "L") first 2 third
unfolding begin on_leaf build_chains start_hints start_hint fetch resume on_configuration get str_eq
    elems items strict_equal truthy decode_entity_statement entries fields
two_steps =
    next (next still (answer first [] [] (configuration hint_branch) (fetched (js "t")) false refl))
      (answer second [] [] (statement hint_branch (js "t") anchor_configuration) (fetched (js "s"))
        false refl)

Run-bound_example : 2 ≤ 5 - 1
Run-bound_example = Run-bound network limits anchors (js "L") false (some (js "l")) two_steps

abbrev Publishes : Str → Str → Type 0
Publishes entity jwt = get entity ((js "L", js "l") ∷ (js "T", js "t") ∷ []) ≡ some jwt

abbrev Issues : Str → Str → Str → Type 0
Issues superior current jwt = (superior ≡ js "T") × (current ≡ js "L") × (jwt ≡ js "s")

leaf_published : (jwt : Str) → some (js "l") ≡ some jwt → Publishes (js "L") jwt
unfolding get str_eq
leaf_published jwt e = e

two_honest : AreHonest Publishes Issues network limits anchors (js "L") two_steps
unfolding two_steps get str_eq
two_honest = ((tt, refl), (refl, refl, refl))

Run-begin-IsGood_example : IsGood Publishes Issues network limits anchors (js "L") third
Run-begin-IsGood_example =
    Run-begin-IsGood Publishes Issues network limits anchors (js "L") false (some (js "l"))
      two_steps leaf_published two_honest

abbrev limiter : Limiter
limiter = record { active = 0; queue = []; granted = [] }

abbrev calls : List Operation
calls = acquire 7 ∷ acquire 8 ∷ acquire 9 ∷ release ∷ []

run-IsLimited_example : IsLimited 1 (run 1 limiter calls)
unfolding create_concurrency_limiter
run-IsLimited_example = run-IsLimited 1 limiter calls refl

run-granted_example :
    In 9
      (run 1
        (record { active = 1; queue = 8 ∷ 9 ∷ []; granted = [] })
        (release ∷ acquire 6 ∷ release ∷ [])).granted
run-granted_example =
    run-granted 1 (release ∷ acquire 6 ∷ release ∷ [])
      (record { active = 1; queue = 8 ∷ 9 ∷ []; granted = [] }) (8 ∷ []) [] 9 refl refl
      (omega arith)

scan-enough_example :
    scan
      (λ text. some text)
      (enough (λ text. some text) (js "{\"a\": [1, {}]}"))
      (value [])
      (js "{\"a\": [1, {}]}")
    ≢ out_of_fuel
scan-enough_example = scan-enough (λ text. some text) [] (js "{\"a\": [1, {}]}")

select_verification_key-IsSelected_example :
    IsSelected platform.reading (some (str (js "k"))) (some (str (js "ES256"))) (jwk ∷ []) jwk
unfolding select_verification_key may_verify get str_eq strict_equal truthy
select_verification_key-IsSelected_example =
    select_verification_key-IsSelected platform.reading (some (str (js "k")))
      (some (str (js "ES256"))) (jwk ∷ []) jwk refl refl

strip_private_fields_lem_example : get (js "d") ((js "kty", str (js "EC")) ∷ []) ≡ none
unfolding strip_private_fields strip_loop get put str_eq strict_equal
strip_private_fields_lem_example =
    strip_private_fields_lem ((js "kty", str (js "EC")) ∷ (js "d", str (js "x")) ∷ [])
      ((js "kty", str (js "EC")) ∷ []) (js "d") refl refl

abbrev mixed : List Jwk
mixed = ((js "use", str (js "sig")) ∷ []) ∷ ((js "alg", str (js "RSA-OAEP")) ∷ []) ∷ []

validate_jwk_set_use_requirement_iff_example : (validate_jwk_set_use_requirement mixed ≡ false) ↔ (
    ((k : Jwk) × In k mixed × IsForSignatures k)
    × ((k : Jwk) × In k mixed × IsForEncryption k)
    × ((k : Jwk) × In k mixed × LacksUse k))
validate_jwk_set_use_requirement_iff_example = validate_jwk_set_use_requirement_iff mixed

abbrev published : Metadata
published = (js "t", (js "p", some (num 1)) ∷ []) ∷ []

abbrev context : Metadata
context = (js "t", (js "p", some (num 2)) ∷ []) ∷ []

add_context-keeps_example :
    (params : Params) × (get (js "t") (add_context context published) ≡ some params)
    × (read (js "p") params ≡ some (num 1))
unfolding get str_eq read
add_context-keeps_example =
    add_context-keeps context published (js "t") (js "p") ((js "p", some (num 1)) ∷ []) (num 1) refl
      refl

abbrev other_chain : ValidatedTrustChain
other_chain = record validated.chain { trust_anchor_id = js "U"; statements = [] }

abbrev candidate : TrustChain
candidate = record {
  statements = tokens;
  entity_id = js "L";
  trust_anchor_id = js "T";
  expires_at = 8;
}

refreshed :
    refresh_trust_chain platform options anchors true 9 other_chain (candidate ∷ [])
    ≡ ok validated.chain
unfolding refresh_trust_chain first_valid validate_trust_chain
refreshed = rw (first_valid, valid) refl

refresh_trust_chain-IsRefreshed_example :
    ((validated.chain ≡ other_chain) × (is_chain_expired other_chain 9 ≡ false))
    ⊎ IsRefreshed platform options anchors (candidate ∷ []) validated.chain
refresh_trust_chain-IsRefreshed_example =
    refresh_trust_chain-IsRefreshed platform options anchors true 9 other_chain (candidate ∷ [])
      validated.chain refreshed
