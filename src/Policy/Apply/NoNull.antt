-- ===== src/Policy/Apply/NoNull.antt =====
-- `applyMetadataPolicy` stores no null.
use oidfed.Common.{
  Str, Dict, get, put, delete, get-delete, ◌≡◌, ◌≢◌, refl, true, Option, none, some, List, [], ◌∷◌,
  In, inl, inr, arith, Bool-cases, Option-cases, ok, >>=-ok,
}
use oidfed.Json.{Json, null, str}
use oidfed.Policy.Operators.{
  OpName, PolicyOperatorDefinition, Value, OpResult, keep, removed, failed,
}
use oidfed.Policy.Names.{OpMap}
use oidfed.Policy.Custom.{Lookup, build_operator_lookup}
use oidfed.Policy.Merge.{Policy, or_empty}
use oidfed.Policy.Merge.Entries.{Values, Values-put, Values-nil}
use oidfed.Policy.Apply.{
  Params, Metadata, read, override_params, override_types, Step, known_steps, sort_steps,
  is_scope_text, words, join_scope, store_result, apply_steps, apply_param, apply_params,
  apply_types, apply_metadata_policy,
}
use oidfed.Policy.Apply.Frame.{join_scope_cases, apply_inv}

-- No parameter's own value is null; what an array or an object holds is left open.
abbrev pub NoNull : Params → Type 0
NoNull = Values (λ (x : Value). x ≢ some null)

Values-delete : (P : Value → Type 0) (k : Str) (d : Params) → Values P d → Values P (delete k d)
Values-delete P k d h j b e = h j b (ground (arith, get-delete k j d))

store-NoNull :
    (entity_type param : Str) (op : OpName) (params : Params) (r : OpResult) (params' : Params)
    → NoNull params
    → store_result entity_type param op params r ≡ ok params'
    → NoNull params'
unfolding store_result
store-NoNull entity_type param op params (failed why) params' h e = absurd (cc e)
store-NoNull entity_type param op params removed params' h e =
    let same : delete param params ≡ params' = cc e in
    rw (← same) (Values-delete (λ (x : Value). x ≢ some null) param params h)
store-NoNull entity_type param op params (keep none) params' h e =
    let same : put param none params ≡ params' = cc e in
    rw (← same) (Values-put (λ (x : Value). x ≢ some null) param none params (λ q. cc q) h)
store-NoNull entity_type param op params (keep (some null)) params' h e = absurd (cc e)
store-NoNull entity_type param op params (keep (some v)) params' h e =
    let same : put param (some v) params ≡ params' = cc e in
    rw (← same) (Values-put (λ (x : Value). x ≢ some null) param (some v) params (λ q. cc q) h)

steps-NoNull :
    (entity_type param : Str) (params : Params) (ss : List Step) (params' : Params)
    → NoNull params
    → apply_steps entity_type param params ss ≡ ok params'
    → NoNull params'
unfolding apply_steps
steps-NoNull entity_type param params [] params' h e =
    let same : params ≡ params' = cc e in rw (← same) h
steps-NoNull entity_type param params ((def, op, v) ∷ ss) params' h e =
    let (mid, here, later) =
      >>=-ok (store_result entity_type param op params (def.apply (read param params) v)) _ e in
    steps-NoNull entity_type param mid ss params'
      (store-NoNull entity_type param op params (def.apply (read param params) v) mid h here) later

words_text : (param : Str) (x : Value) → is_scope_text param x ≡ true → words x ≢ some null
words_text param (some (str s)) h = λ q. cc q
words_text param none h = λ q. cc q
words_text param (some v) h = absurd (cc h)

entry-NoNull : (k : Str) (m : Metadata) → Values NoNull m → NoNull (or_empty (get k m))
entry-NoNull k m h = elim (Option-cases (get k m)) [
  | inl missing ↦ rw missing (Values-nil (λ (x : Value). x ≢ some null))
  | inr (params, found) ↦ rw found (h k params found)
]

module _ (to_string : Json → Str) where
  param-NoNull :
      (entity_type param : Str) (lookup : Lookup) (params : Params) (ops : OpMap Json)
      (params' : Params)
      → NoNull params
      → apply_param to_string entity_type param lookup params ops ≡ ok params'
      → NoNull params'
  unfolding apply_param
  param-NoNull entity_type param lookup params ops params' h e =
      let x = words (read param params) in
      let steps = sort_steps (known_steps lookup ops) in
      elim (Bool-cases (is_scope_text param (read param params))) [
        | inr plain ↦ steps-NoNull entity_type param params steps params' h (rw plain at e)
        | inl text ↦
            let (mid, here, later) =
              >>=-ok (apply_steps entity_type param (put param x params) steps) _ (rw text at e) in
            let rejoined : join_scope to_string param mid ≡ params' = cc later in
            let fine =
              steps-NoNull entity_type param (put param x params) steps mid
                (Values-put (λ (x : Value). x ≢ some null) param x params
                  (words_text param (read param params) text) h)
                here in
            rw (← rejoined) (elim (join_scope_cases to_string param mid) [
              | inl same ↦ rw same fine
              | inr (s, same) ↦ rw same (
                  Values-put (λ (x : Value). x ≢ some null) param (some (str s)) mid (λ q. cc q)
                    fine)
            ])
      ]

  params-NoNull :
      (entity_type : Str) (lookup : Lookup) (params : Params) (policies : Dict (OpMap Json))
      (params' : Params)
      → NoNull params
      → apply_params to_string lookup entity_type params policies ≡ ok params'
      → NoNull params'
  unfolding apply_params
  params-NoNull entity_type lookup params [] params' h e =
      let same : params ≡ params' = cc e in rw (← same) h
  params-NoNull entity_type lookup params ((param, ops) ∷ policies) params' h e =
      let (mid, here, later) =
        >>=-ok (apply_param to_string entity_type param lookup params ops) _ e in
      params-NoNull entity_type lookup mid policies params'
        (param-NoNull entity_type param lookup params ops mid h here) later

  types-NoNull :
      (lookup : Lookup) (m : Metadata) (policy : Policy) (m' : Metadata)
      → Values NoNull m
      → apply_types to_string lookup m policy ≡ ok m'
      → Values NoNull m'
  unfolding apply_types
  types-NoNull lookup m [] m' h e = let same : m ≡ m' = cc e in rw (← same) h
  types-NoNull lookup m ((entity_type, policies) ∷ types) m' h e =
      let known = or_empty (get entity_type m) in
      let (params, here, later) =
        >>=-ok (apply_params to_string lookup entity_type known policies) _ e in
      types-NoNull lookup (put entity_type params m) types m'
        (Values-put NoNull entity_type params m
          (params-NoNull entity_type lookup known policies params (entry-NoNull entity_type m h)
            here)
          h)
        later

override_params-NoNull :
    (known params : Params)
    → NoNull known
    → ((k : Str) (x : Value) → In (k, x) params → x ≢ some null)
    → NoNull (override_params known params)
unfolding override_params
override_params-NoNull known [] h g = h
override_params-NoNull known ((k, x) ∷ params) h g =
    override_params-NoNull (put k x known) params
      (Values-put (λ (x : Value). x ≢ some null) k x known (g k x (inl refl)) h)
      (λ j y m. g j y (inr m))

override_types-NoNull :
    (m superior : Metadata)
    → Values NoNull m
    → ((t : Str) (params : Params)
        → In (t, params) superior
        → (k : Str) (x : Value) → In (k, x) params
        → x ≢ some null)
    → Values NoNull (override_types m superior)
unfolding override_types
override_types-NoNull m [] h g = h
override_types-NoNull m ((t, params) ∷ types) h g =
    let entry = override_params (or_empty (get t m)) params in
    override_types-NoNull (put t entry m) types
      (Values-put NoNull t entry m
        (override_params-NoNull (or_empty (get t m)) params (entry-NoNull t m h)
          (g t params (inl refl)))
        h)
      (λ s ps k. g s ps (inr k))

-- If no parameter of the metadata and of the superior's override has the value null, then in the
-- metadata that a successful application gives no parameter has the value null. (A null inside of a
-- parameter's array or object is not excluded.)
pub apply_metadata_policy-NoNull :
    (to_string : Json → Str) (m : Metadata) (policy : Policy) (superior : Option Metadata)
    (customs : List PolicyOperatorDefinition) (m' : Metadata)
    → Values NoNull m
    → ((t : Str) (params : Params)
        → In (t, params) (or_empty superior)
        → (k : Str) (x : Value) → In (k, x) params
        → x ≢ some null)
    → apply_metadata_policy to_string m policy superior customs ≡ ok m'
    → Values NoNull m'
apply_metadata_policy-NoNull to_string m policy superior customs m' h g e =
    types-NoNull to_string (build_operator_lookup customs) (override_types m (or_empty superior))
      policy m' (override_types-NoNull m (or_empty superior) h g)
      (apply_inv to_string m policy superior customs m' e)
