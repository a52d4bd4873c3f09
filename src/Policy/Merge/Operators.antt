-- ===== src/Policy/Merge/Operators.antt =====
-- The merge of one parameter's operators: what it keeps, establishes and checks.
use oidfed.Common.{
  Str, ◌≡◌, refl, ap, sym, ◌∙◌, false, none, some, [], ◌∷◌, In, inl, inr, arith, Bool-cases,
  Option-cases, ok, ◌>>=◌, >>=-ok,
}
use oidfed.Json.{Json, IsJson}
use oidfed.Policy.Operators.{
  OpName, PolicyOperatorDefinition, MergeResult, merged, unmerged,
  validate_standard_policy_operator_configuration,
}
use oidfed.Policy.Names.{op_eq, op_eq_iff, op_eq_refl, OpMap, op_get, op_put, op_get-op_put}
use oidfed.Policy.Standard.{operators}
use oidfed.Policy.Standard.Refines.{Refines, Refines-refl, Refines-trans, merge-Refines}
use oidfed.Policy.Standard.Configured.{IsConfigured, merge-IsConfigured}
use oidfed.Policy.Custom.{Lookup}
use oidfed.Policy.Merge.{merged_value, merge_operator, merge_operators}

-- The standard operators are there, and are themselves.
abbrev pub HasStandard : Lookup → Type 0
HasStandard lookup =
    (op : OpName) (def : PolicyOperatorDefinition) → operators op ≡ some def → lookup op ≡ some def

-- What is kept under a standard operator is JSON and a valid configuration.
abbrev pub IsValid : OpMap Json → Type 0
IsValid ops =
    (op : OpName) (def : PolicyOperatorDefinition) (v : Json)
    → operators op ≡ some def
    → op_get op ops ≡ some v
    → IsJson v × IsConfigured op v

-- The operator's value is at least as restrictive as `v`.
abbrev pub Restricts : OpName → Json → OpMap Json → Type 0
Restricts op v ops = (u : Json) × (op_get op ops ≡ some u) × Refines op u v

abbrev pub AreJson : OpMap Json → Type 0
AreJson ops = (op : OpName) (v : Json) → In (op, v) ops → IsJson v

module _ (lookup : Lookup) (standard : HasStandard lookup) (entity_type param : Str) where
  -- The three ways in which `merge_operator` succeeds.
  data Merged (known : OpMap Json) (op : OpName) (v : Json) (known' : OpMap Json) : Type 0 where
    ignored : lookup op ≡ none → known ≡ known' → Merged known op v known'
    first :
        IsConfigured op v
        → op_get op known ≡ none
        → op_put op v known ≡ known'
        → Merged known op v known'
    joined :
        (def : PolicyOperatorDefinition) (w x : Json)
        → lookup op ≡ some def
        → op_get op known ≡ some w
        → def.merge w v ≡ merged x
        → op_put op x known ≡ known'
        → Merged known op v known'

  merge_joined :
      (known : OpMap Json) (op : OpName) (v : Json) (known' : OpMap Json)
      (def : PolicyOperatorDefinition) (w : Json)
      → lookup op ≡ some def
      → op_get op known ≡ some w
      → (r : MergeResult) → def.merge w v ≡ r
      → (merged_value lookup entity_type param op r >>= λ x. ok (op_put op x known)) ≡ ok known'
      → Merged known op v known'
  merge_joined known op v known' def w found old (merged x) r e = joined def w x found old r (cc e)
  merge_joined known op v known' def w found old (unmerged why) r e = absurd (cc e)

  merge_operator_cases :
      (known : OpMap Json) (op : OpName) (v : Json) (known' : OpMap Json)
      → merge_operator lookup entity_type param known op v ≡ ok known'
      → Merged known op v known'
  unfolding merge_operator
  merge_operator_cases known op v known' e = elim (Option-cases (lookup op)) [
    | inl missing ↦ ignored missing (ground (arith, missing))
    | inr (def, found) ↦
        elim (Option-cases (validate_standard_policy_operator_configuration op v)) [
          | inr (why, bad) ↦ absurd (ground (arith, found, bad))
          | inl good ↦ elim (Option-cases (op_get op known)) [
            | inl fresh ↦ first good fresh (ground (arith, found, good, fresh))
            | inr (w, old) ↦
                merge_joined known op v known' def w found old (def.merge w v) refl
                  (ground (arith, found, good, old))
          ]
        ]
  ]

  -- One operator taken in: the validity stays, what was restricted stays restricted, and the new
  -- value restricts too.
  merge_operator-IsValid :
      (known : OpMap Json) (op : OpName) (v : Json) (known' : OpMap Json)
      → IsValid known
      → IsJson v
      → merge_operator lookup entity_type param known op v ≡ ok known'
      → IsValid known'
  merge_operator-IsValid known op v known' valid json e =
      go (merge_operator_cases known op v known' e)
    where
      stored :
          (x : Json)
          → ((def : PolicyOperatorDefinition)
              → operators op ≡ some def
              → IsJson x × IsConfigured op x)
          → op_put op x known ≡ known'
          → IsValid known'
      stored x fine same o def u std at = elim (Bool-cases (op_eq op o)) [
        | inl equal ↦
            let key : op ≡ o = (op_eq_iff op o).0 equal in
            let val : x ≡ u = ground (arith, op_get-op_put op o x known, same) in
            rw (← key, ← val) (fine def (rw key std))
        | inr other ↦ valid o def u std (ground (arith, op_get-op_put op o x known, same))
      ]

      go : Merged known op v known' → IsValid known'
      go (ignored missing same) = rw (← same) valid
      go (first good fresh same) = stored v (λ def std. (json, good)) same
      go (joined def w x found old h same) =
          stored x
            (λ def' std.
              let agree : def ≡ def' = cc (standard op def' std) in
              let h' : def'.merge w v ≡ merged x = rw (← agree) h in
              let (jw, cw) = valid op def' w std old in
              (
                (merge-Refines op def' w v x std jw json h').0,
                merge-IsConfigured op def' w v x std h',
              ))
            same

  -- Under the operator's own name: what was restricted by the old value, and the new value, are
  -- restricted by what is kept.
  merge_operator_self :
      (known : OpMap Json) (op : OpName) (v : Json) (known' : OpMap Json)
      (def : PolicyOperatorDefinition)
      → operators op ≡ some def
      → IsValid known
      → IsJson v
      → merge_operator lookup entity_type param known op v ≡ ok known'
      → Restricts op v known' × ((w : Json) → Restricts op w known → Restricts op w known')
  merge_operator_self known op v known' def std valid json e =
      go (merge_operator_cases known op v known' e)
    where
      there : (x : Json) → op_put op x known ≡ known' → op_get op known' ≡ some x
      there x same = ground (arith, op_get-op_put op op x known, op_eq_refl op, same)

      go :
          Merged known op v known'
          → Restricts op v known' × ((w : Json) → Restricts op w known → Restricts op w known')
      go (ignored missing same) = absurd (cc (standard op def std, missing))
      go (first good fresh same) =
          ((v, there v same, Refines-refl op v json), λ w (u, at, r). absurd (cc (at, fresh)))
      go (joined def' w x found old h same) =
          let agree : def' ≡ def = cc (standard op def std) in
          let (jx, over_w, over_v) =
            merge-Refines op def w v x std (valid op def w std old).0 json (rw (← agree) h) in
          (
            (x, there x same, over_v),
            λ y (u, at, r).
                let same_old : u ≡ w = cc (at, old) in
                (x, there x same, Refines-trans op x w y over_w (rw (← same_old) r)),
          )

  merge_operator_other :
      (known : OpMap Json) (op o : OpName) (v : Json) (known' : OpMap Json)
      → op_eq op o ≡ false
      → merge_operator lookup entity_type param known op v ≡ ok known'
      → op_get o known' ≡ op_get o known
  merge_operator_other known op o v known' ne e = go (merge_operator_cases known op v known' e)
    where
      stored : (x : Json) → op_put op x known ≡ known' → op_get o known' ≡ op_get o known
      stored x same = ground (arith, op_get-op_put op o x known, same)

      go : Merged known op v known' → op_get o known' ≡ op_get o known
      go (ignored missing same) = ap (op_get o) (sym same)
      go (first good fresh same) = stored v same
      go (joined def w x found old h same) = stored x same

  merge_operator_keep :
      (known : OpMap Json) (op : OpName) (v : Json) (known' : OpMap Json) (o : OpName)
      (def : PolicyOperatorDefinition) (w : Json)
      → operators o ≡ some def
      → IsValid known
      → IsJson v
      → merge_operator lookup entity_type param known op v ≡ ok known'
      → Restricts o w known
      → Restricts o w known'
  merge_operator_keep known op v known' o def w std valid json e (u, at, r) =
      elim (Bool-cases (op_eq op o)) [
        | inl equal ↦
            let key : op ≡ o = (op_eq_iff op o).0 equal in
            rw (← key) (
              (merge_operator_self known op v known' def (rw key std) valid json e).1 w
                (rw key (u, at, r)))
        | inr other ↦ (u, merge_operator_other known op o v known' other e ∙ at, r)
      ]

  pub merge_operators-IsValid :
      (known ops known' : OpMap Json)
      → IsValid known
      → AreJson ops
      → merge_operators lookup entity_type param known ops ≡ ok known'
      → IsValid known'
  unfolding merge_operators
  merge_operators-IsValid known [] known' valid json e =
      let same : known ≡ known' = cc in rw (← same) valid
  merge_operators-IsValid known ((op, v) ∷ ops) known' valid json e =
      let (mid, here, later) = >>=-ok (merge_operator lookup entity_type param known op v) _ e in
      merge_operators-IsValid mid ops known'
        (merge_operator-IsValid known op v mid valid (json op v (inl refl)) here)
        (λ o w m. json o w (inr m)) later

  pub merge_operators_keep :
      (known ops known' : OpMap Json) (o : OpName) (def : PolicyOperatorDefinition) (w : Json)
      → operators o ≡ some def
      → IsValid known
      → AreJson ops
      → merge_operators lookup entity_type param known ops ≡ ok known'
      → Restricts o w known
      → Restricts o w known'
  unfolding merge_operators
  merge_operators_keep known [] known' o def w std valid json e r =
      let same : known ≡ known' = cc in rw (← same) r
  merge_operators_keep known ((op, v) ∷ ops) known' o def w std valid json e r =
      let (mid, here, later) = >>=-ok (merge_operator lookup entity_type param known op v) _ e in
      let first_json = json op v (inl refl) in
      merge_operators_keep mid ops known' o def w std
        (merge_operator-IsValid known op v mid valid first_json here) (λ i x m. json i x (inr m))
        later (merge_operator_keep known op v mid o def w std valid first_json here r)

  pub merge_operators_establish :
      (known ops known' : OpMap Json) (o : OpName) (def : PolicyOperatorDefinition) (w : Json)
      → operators o ≡ some def
      → IsValid known
      → AreJson ops
      → merge_operators lookup entity_type param known ops ≡ ok known'
      → In (o, w) ops
      → Restricts o w known'
  unfolding merge_operators
  merge_operators_establish known [] known' o def w std valid json e m = absurd m
  merge_operators_establish known ((op, v) ∷ ops) known' o def w std valid json e (inl m) =
      let (mid, here, later) = >>=-ok (merge_operator lookup entity_type param known op v) _ e in
      let first_json = json op v (inl refl) in
      let key : o ≡ op = ap (λ (q : OpName × Json). q.0) m in
      let val : w ≡ v = ap (λ (q : OpName × Json). q.1) m in
      merge_operators_keep mid ops known' o def w std
        (merge_operator-IsValid known op v mid valid first_json here) (λ i x n. json i x (inr n))
        later
        (rw (key, val)
          (merge_operator_self known op v mid def (rw (← key) std) valid first_json here).0)
  merge_operators_establish known ((op, v) ∷ ops) known' o def w std valid json e (inr m) =
      let (mid, here, later) = >>=-ok (merge_operator lookup entity_type param known op v) _ e in
      merge_operators_establish mid ops known' o def w std
        (merge_operator-IsValid known op v mid valid (json op v (inl refl)) here)
        (λ i x n. json i x (inr n)) later m
