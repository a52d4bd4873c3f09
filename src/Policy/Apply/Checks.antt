-- ===== src/Policy/Apply/Checks.antt =====
-- After a policy is applied, what is left of a parameter passes the policy's checks.
use oidfed.Common.{
  ℕ, ◌≤◌, Str, put, get-put, str_eq_refl, ◌≡◌, refl, ap, true, false, none, some, List, [], ◌∷◌, In,
  inl, inr, arith, In-filter, all, all_at, all_intro, ok, >>=-ok,
}
use oidfed.Json.{Json, null, arr, elems}
use oidfed.Policy.Arrays.{contains_element, is_subset, array_intersection}
use oidfed.Policy.Arrays.Laws.{member, is_subset_intro, is_subset_at}
use oidfed.Policy.Operators.{
  OpName, value, add, default, one_of, subset_of, superset_of, essential, other, Value, OpResult,
  keep, removed, failed, PolicyOperatorDefinition, as_array, as_boolean, array,
  is_one_of_metadata_value, is_comparable_array, is_comparable_element,
}
use oidfed.Policy.Names.{OpMap}
use oidfed.Policy.Standard.{
  operators, one_of_operator, subset_of_operator, superset_of_operator, essential_operator,
  one_of_apply, superset_of_apply, subset_of_apply, essential_apply,
}
use oidfed.Policy.Standard.Refines.{elems-items}
use oidfed.Policy.Apply.{
  Params, read, Step, known_steps, sort_steps, is_scope_text, store_result, apply_steps,
  apply_param,
}
use oidfed.Policy.Apply.Order.{
  AtLeast, IsOrdered, sort_steps-IsOrdered, In-sort_steps, sort_steps-In, known_steps_defined,
  known_steps-In,
}

-- What each checking operator demands of a parameter's value: to be one of a set, or to be an array
-- of strings, numbers or objects within the set or around it; an absent value passes all but
-- `essential`.
abbrev pub Satisfies : OpName → Json → Value → Type 0
Satisfies one_of v (some p) =
    (contains_element (as_array v) p ≡ true) × (is_one_of_metadata_value p ≡ true)
Satisfies subset_of v (some p) =
    (is_subset (as_array p) (as_array v) ≡ true) × (is_comparable_array p ≡ true)
Satisfies superset_of v (some p) =
    (is_subset (as_array v) (as_array p) ≡ true) × (is_comparable_array p ≡ true)
Satisfies essential v none = as_boolean v ≡ false
Satisfies _ v p = Unit

abbrev pub IsCheck : OpName → Type 0
IsCheck one_of = Unit
IsCheck subset_of = Unit
IsCheck superset_of = Unit
IsCheck essential = Unit
IsCheck _ = ⊥

-- The three that only check leave the value as it is.
one_of_apply_keep :
    (v : Json) (x y : Value) → one_of_apply x v ≡ keep y → (x ≡ y) × Satisfies one_of v y
unfolding one_of_apply
one_of_apply_keep v none none h = (refl, tt)
one_of_apply_keep v none (some q) h = ground arith
one_of_apply_keep v (some p) none h = ground arith
one_of_apply_keep v (some p) (some q) h =
    let same : p ≡ q = ground arith in (ap some same, rw (← same) (ground arith, ground arith))

superset_of_apply_keep :
    (v : Json) (x y : Value) → superset_of_apply x v ≡ keep y → (x ≡ y) × Satisfies superset_of v y
unfolding superset_of_apply
superset_of_apply_keep v none none h = (refl, tt)
superset_of_apply_keep v none (some q) h = ground arith
superset_of_apply_keep v (some p) none h = ground arith
superset_of_apply_keep v (some p) (some q) h =
    let same : p ≡ q = ground arith in (ap some same, rw (← same) (ground arith, ground arith))

essential_apply_keep :
    (v : Json) (x y : Value) → essential_apply x v ≡ keep y → (x ≡ y) × Satisfies essential v y
unfolding essential_apply
essential_apply_keep v none none h = (refl, ground arith)
essential_apply_keep v none (some q) h = ground arith
essential_apply_keep v (some p) none h = ground arith
essential_apply_keep v (some p) (some q) h = (ground arith, tt)

-- `subset_of` narrows an array.
subset_of_apply_keep :
    (v : Json) (x y : Value)
    → subset_of_apply x v ≡ keep y
    → Satisfies subset_of v y
      × ((w : Json) → Satisfies subset_of w x → Satisfies subset_of w y)
      × ((w : Json) → Satisfies one_of w x → Satisfies one_of w y)
unfolding subset_of_apply
subset_of_apply_keep v none none h = (tt, (λ w s. tt), λ w s. tt)
subset_of_apply_keep v none (some q) h = ground arith
subset_of_apply_keep v (some p) none h = ground arith
subset_of_apply_keep v (some p) (some q) h =
    let same : array (array_intersection (as_array p) (as_array v)) ≡ q = ground arith in
    (
      rw (← same, elems-items) (narrowed v p, narrow_comparable v p (ground arith)),
      (λ w s. rw (← same, elems-items) (narrower v w p s.0, narrow_comparable v p s.1)),
      λ w s. absurd (scalar p (ground arith) s.1),
    )
  where
    narrowed :
        (v p : Json) → is_subset (array_intersection (as_array p) (as_array v)) (as_array v) ≡ true
    narrowed v p =
        unfold array_intersection in
        is_subset_intro (array_intersection (as_array p) (as_array v)) (as_array v)
          λ z m. (In-filter (λ item. member item (as_array v)) z (as_array p) m).1

    narrower :
        (v w p : Json)
        → is_subset (as_array p) (as_array w) ≡ true
        → is_subset (array_intersection (as_array p) (as_array v)) (as_array w) ≡ true
    narrower v w p s =
        unfold array_intersection in
        is_subset_intro (array_intersection (as_array p) (as_array v)) (as_array w) λ z m.
          is_subset_at (as_array p) (as_array w) z s
            (In-filter (λ item. member item (as_array v)) z (as_array p) m).0

    narrow_comparable :
        (v p : Json)
        → is_comparable_array p ≡ true
        → all is_comparable_element (array_intersection (as_array p) (as_array v)) ≡ true
    narrow_comparable v (arr xs) h =
        unfold array_intersection in
        all_intro is_comparable_element (array_intersection (elems xs) (as_array v)) λ z m.
          all_at is_comparable_element z (elems xs) h
            (In-filter (λ item. member item (as_array v)) z (elems xs) m).0
    narrow_comparable v p h = cc h

    scalar : (p : Json) → is_comparable_array p ≡ true → is_one_of_metadata_value p ≡ true → ⊥
    scalar (arr xs) h k = cc k
    scalar p h k = cc h

abbrev rank : OpName → ℕ
rank value = 1
rank add = 2
rank default = 3
rank one_of = 4
rank subset_of = 5
rank superset_of = 6
rank essential = 7
rank (other s) = 0

order-eq-rank :
    (op : OpName) (def : PolicyOperatorDefinition) → operators op ≡ some def → def.order ≡ rank op
order-eq-rank (other s) def e = cc e
order-eq-rank value def e = ground arith
order-eq-rank _ def e = ground arith

-- The operators that follow a checking one never remove a parameter.
check-ne-removed :
    (op : OpName) (def : PolicyOperatorDefinition) (x : Value) (v : Json)
    → operators op ≡ some def
    → IsCheck op
    → def.apply x v ≡ removed
    → ⊥
unfolding one_of_apply subset_of_apply superset_of_apply essential_apply
check-ne-removed one_of def x v std c h =
    let same : one_of_operator ≡ def = cc in
    let h' : one_of_apply x v ≡ removed = rw (← same) at h in ground arith
check-ne-removed subset_of def x v std c h =
    let same : subset_of_operator ≡ def = cc in
    let h' : subset_of_apply x v ≡ removed = rw (← same) at h in ground arith
check-ne-removed superset_of def x v std c h =
    let same : superset_of_operator ≡ def = cc in
    let h' : superset_of_apply x v ≡ removed = rw (← same) at h in ground arith
check-ne-removed essential def x v std c h =
    let same : essential_operator ≡ def = cc in
    let h' : essential_apply x v ≡ removed = rw (← same) at h in ground arith
check-ne-removed _ def x v std c h = absurd c

-- A checking operator that lets a value through establishes its own demand, and keeps the demands
-- of the checking operators that came before it.
Satisfies-apply :
    (op : OpName) (def : PolicyOperatorDefinition) (v : Json) (x y : Value)
    → operators op ≡ some def
    → IsCheck op
    → def.apply x v ≡ keep y
    → Satisfies op v y
      × ((o : OpName) (w : Json) → IsCheck o → rank o ≤ rank op → Satisfies o w x → Satisfies o w y)
Satisfies-apply one_of def v x y std c h =
    let same : one_of_operator ≡ def = cc in
    let (stays, holds) = one_of_apply_keep v x y (rw (← same) at h) in
    (holds, λ o w k le s. rw (← stays) s)
Satisfies-apply superset_of def v x y std c h =
    let same : superset_of_operator ≡ def = cc in
    let (stays, holds) = superset_of_apply_keep v x y (rw (← same) at h) in
    (holds, λ o w k le s. rw (← stays) s)
Satisfies-apply essential def v x y std c h =
    let same : essential_operator ≡ def = cc in
    let (stays, holds) = essential_apply_keep v x y (rw (← same) at h) in
    (holds, λ o w k le s. rw (← stays) s)
Satisfies-apply subset_of def v x y std c h =
    let same : subset_of_operator ≡ def = cc in
    let (holds, narrow, single) = subset_of_apply_keep v x y (rw (← same) at h) in
    (holds, kept narrow single)
  where
    kept :
        ((w : Json) → Satisfies subset_of w x → Satisfies subset_of w y)
        → ((w : Json) → Satisfies one_of w x → Satisfies one_of w y)
        → (o : OpName) (w : Json) → IsCheck o
        → rank o ≤ 5
        → Satisfies o w x
        → Satisfies o w y
    kept narrow single one_of w k le s = single w s
    kept narrow single subset_of w k le s = narrow w s
    kept narrow single superset_of w k le s = absurd (omega arith)
    kept narrow single essential w k le s = absurd (omega arith)
    kept narrow single o w k le s = absurd k
Satisfies-apply _ def v x y std c h = absurd c

read-put : (param : Str) (x : Value) (params : Params) → read param (put param x params) ≡ x
unfolding read
read-put param x params = ground (arith, get-put param param x params, str_eq_refl param)

store_keep :
    (entity_type param : Str) (op : OpName) (params : Params) (r : OpResult) (params' : Params)
    → (r ≡ removed → ⊥)
    → store_result entity_type param op params r ≡ ok params'
    → (y : Value) × (r ≡ keep y) × (read param params' ≡ y)
unfolding store_result
store_keep entity_type param op params (failed why) params' n e = absurd (cc e)
store_keep entity_type param op params removed params' n e = absurd (n refl)
store_keep entity_type param op params (keep none) params' n e =
    let same : put param none params ≡ params' = cc e in
    (none, refl, rw (← same) (read-put param none params))
store_keep entity_type param op params (keep (some null)) params' n e = absurd (cc e)
store_keep entity_type param op params (keep (some v)) params' n e =
    let same : put param (some v) params ≡ params' = cc e in
    (some v, refl, rw (← same) (read-put param (some v) params))

-- Every step is a standard operator's.
abbrev AreStandard : List Step → Type 0
AreStandard [] = Unit
AreStandard (s ∷ ss) = (operators s.1 ≡ some s.0) × AreStandard ss

IsCheck-of_rank :
    (o op : OpName) (def : PolicyOperatorDefinition)
    → operators op ≡ some def
    → IsCheck o
    → rank o ≤ rank op
    → IsCheck op
IsCheck-of_rank o one_of def std c le = tt
IsCheck-of_rank o subset_of def std c le = tt
IsCheck-of_rank o superset_of def std c le = tt
IsCheck-of_rank o essential def std c le = tt
IsCheck-of_rank o (other s) def std c le = cc std
IsCheck-of_rank one_of op def std c le = absurd (omega arith)
IsCheck-of_rank subset_of op def std c le = absurd (omega arith)
IsCheck-of_rank superset_of op def std c le = absurd (omega arith)
IsCheck-of_rank essential op def std c le = absurd (omega arith)
IsCheck-of_rank o op def std c le = absurd c

module _ (entity_type param : Str) where
  -- A demand that holds goes on holding through the operators that follow.
  apply_steps_keep :
      (params : Params) (ss : List Step) (params' : Params) (o : OpName) (w : Json)
      → AreStandard ss
      → IsCheck o
      → AtLeast (rank o) ss
      → apply_steps entity_type param params ss ≡ ok params'
      → Satisfies o w (read param params)
      → Satisfies o w (read param params')
  unfolding apply_steps
  apply_steps_keep params [] params' o w std c low e s =
      let same : params ≡ params' = cc e in rw (← same) s
  apply_steps_keep params ((def, op, v) ∷ ss) params' o w (known, std) c (le, low) e s =
      let (mid, here, later) =
        >>=-ok (store_result entity_type param op params (def.apply (read param params) v)) _ e in
      let behind : rank o ≤ rank op = rw (order-eq-rank op def known) at le in
      let check = IsCheck-of_rank o op def known c behind in
      let (y, kept, at) =
        store_keep entity_type param op params (def.apply (read param params) v) mid
          (check-ne-removed op def (read param params) v known check) here in
      apply_steps_keep mid ss params' o w std c low later
        (rw at ((Satisfies-apply op def v (read param params) y known check kept).1 o w c behind s))

  -- What a step demands holds in the end.
  apply_steps_establish :
      (params : Params) (ss : List Step) (params' : Params) (o : OpName)
      (def : PolicyOperatorDefinition) (w : Json)
      → AreStandard ss
      → IsOrdered ss
      → IsCheck o
      → apply_steps entity_type param params ss ≡ ok params'
      → In (def, o, w) ss
      → Satisfies o w (read param params')
  unfolding apply_steps
  apply_steps_establish params [] params' o def w std order c e m = absurd m
  apply_steps_establish params ((d, op, v) ∷ ss) params' o def w (known, std) (low, order) c e
        (inl m) =
      let (mid, here, later) =
        >>=-ok (store_result entity_type param op params (d.apply (read param params) v)) _ e in
      let key : o ≡ op = ap (λ (s : Step). s.1) m in
      let val : w ≡ v = ap (λ (s : Step). s.2) m in
      let check : IsCheck op = rw key at c in
      let (y, kept, at) =
        store_keep entity_type param op params (d.apply (read param params) v) mid
          (check-ne-removed op d (read param params) v known check) here in
      rw (key, val)
        (apply_steps_keep mid ss params' op v std check (rw (order-eq-rank op d known) at low) later
          (rw at (Satisfies-apply op d v (read param params) y known check kept).0))
  apply_steps_establish params ((d, op, v) ∷ ss) params' o def w (known, std) (low, order) c e
        (inr m) =
      let (mid, here, later) =
        >>=-ok (store_result entity_type param op params (d.apply (read param params) v)) _ e in
      apply_steps_establish mid ss params' o def w std order c later m

AreStandard-intro :
    (ss : List Step) → ((s : Step) → In s ss → operators s.1 ≡ some s.0) → AreStandard ss
AreStandard-intro [] h = tt
AreStandard-intro (s ∷ ss) h = (h s (inl refl), AreStandard-intro ss (λ t m. h t (inr m)))

-- If the standard operators of a parameter apply, and the parameter is no scope text, then the value
-- that is left meets the demand of each `one_of`, `subset_of`, `superset_of` and `essential` among
-- them: it is in the set, within the set, contains the set, or is there.
pub apply_param-Satisfies :
    (to_string : Json → Str) (entity_type param : Str) (params : Params) (ops : OpMap Json)
    (params' : Params) (op : OpName) (def : PolicyOperatorDefinition) (v : Json)
    → is_scope_text param (read param params) ≡ false
    → apply_param to_string entity_type param operators params ops ≡ ok params'
    → operators op ≡ some def
    → IsCheck op
    → In (op, v) ops
    → Satisfies op v (read param params')
unfolding apply_param
apply_param-Satisfies to_string entity_type param params ops params' op def v text e std c m =
    let steps = known_steps operators ops in
    apply_steps_establish entity_type param params (sort_steps steps) params' op def v
      (AreStandard-intro (sort_steps steps)
        (λ s k. known_steps_defined operators ops s (sort_steps-In s steps k)))
      (sort_steps-IsOrdered steps) c (rw text at e)
      (In-sort_steps (def, op, v) steps (known_steps-In operators ops op def v std m))
