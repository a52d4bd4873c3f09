-- ===== src/Policy/Apply/Order.antt =====
-- The operators of a parameter are applied in the order of their numbers, and all of them are.
use oidfed.Common.{
  ℕ, ◌≤◌, ◌≡◌, ap, sym, some, List, [], ◌∷◌, In, inl, inr, arith, Bool-cases, Option-cases, leb,
  leb→le,
}
use oidfed.Json.{Json}
use oidfed.Policy.Operators.{OpName, PolicyOperatorDefinition}
use oidfed.Policy.Names.{OpMap}
use oidfed.Policy.Custom.{Lookup}
use oidfed.Policy.Apply.{Step, known_steps, insert_step, sort_steps}

-- Every step behind has at least the order.
abbrev pub AtLeast : ℕ → List Step → Type 0
AtLeast n [] = Unit
AtLeast n (s ∷ ss) = (n ≤ s.0.order) × AtLeast n ss

abbrev pub IsOrdered : List Step → Type 0
IsOrdered [] = Unit
IsOrdered (s ∷ ss) = AtLeast s.0.order ss × IsOrdered ss

AtLeast-mono : (m n : ℕ) (ss : List Step) → m ≤ n → AtLeast n ss → AtLeast m ss
AtLeast-mono m n [] h a = tt
AtLeast-mono m n (s ∷ ss) h (p, a) = (omega arith, AtLeast-mono m n ss h a)

insert_step-AtLeast :
    (n : ℕ) (s : Step) (ss : List Step)
    → n ≤ s.0.order
    → AtLeast n ss
    → AtLeast n (insert_step s ss)
unfolding insert_step
insert_step-AtLeast n s [] h a = (h, tt)
insert_step-AtLeast n s (t ∷ ts) h (p, a) = elim (Bool-cases (leb s.0.order t.0.order)) [
  | inl e ↦ rw e (h, (p, a))
  | inr e ↦ rw e (p, insert_step-AtLeast n s ts h a)
]

insert_step-IsOrdered : (s : Step) (ss : List Step) → IsOrdered ss → IsOrdered (insert_step s ss)
unfolding insert_step
insert_step-IsOrdered s [] o = (tt, tt)
insert_step-IsOrdered s (t ∷ ts) (a, o) = elim (Bool-cases (leb s.0.order t.0.order)) [
  | inl e ↦ let le = leb→le _ _ e in rw e ((le, AtLeast-mono s.0.order t.0.order ts le a), (a, o))
  | inr e ↦ rw e (insert_step-AtLeast t.0.order s ts (ground arith) a, insert_step-IsOrdered s ts o)
]

pub sort_steps-IsOrdered : (ss : List Step) → IsOrdered (sort_steps ss)
unfolding sort_steps
sort_steps-IsOrdered [] = tt
sort_steps-IsOrdered (s ∷ ss) = insert_step-IsOrdered s (sort_steps ss) (sort_steps-IsOrdered ss)

In-insert_step : (x s : Step) (ss : List Step) → In x (s ∷ ss) → In x (insert_step s ss)
unfolding insert_step
In-insert_step x s [] m = m
In-insert_step x s (t ∷ ts) m = elim (Bool-cases (leb s.0.order t.0.order)) [
  | inl e ↦ rw e m
  | inr e ↦ rw e (elim m [
    | inl k ↦ inr (In-insert_step x s ts (inl k))
    | inr (inl k) ↦ inl k
    | inr (inr k) ↦ inr (In-insert_step x s ts (inr k))
  ])
]

insert_step-In : (x s : Step) (ss : List Step) → In x (insert_step s ss) → In x (s ∷ ss)
unfolding insert_step
insert_step-In x s [] m = m
insert_step-In x s (t ∷ ts) m = elim (Bool-cases (leb s.0.order t.0.order)) [
  | inl e ↦ rw e at m
  | inr e ↦ elim (rw e at m) [
    | inl k ↦ inr (inl k)
    | inr k ↦ elim (insert_step-In x s ts k) [ inl j ↦ inl j | inr j ↦ inr (inr j) ]
  ]
]

pub In-sort_steps : (x : Step) (ss : List Step) → In x ss → In x (sort_steps ss)
unfolding sort_steps
In-sort_steps x [] m = absurd m
In-sort_steps x (s ∷ ss) (inl e) = In-insert_step x s (sort_steps ss) (inl e)
In-sort_steps x (s ∷ ss) (inr m) = In-insert_step x s (sort_steps ss) (inr (In-sort_steps x ss m))

pub sort_steps-In : (x : Step) (ss : List Step) → In x (sort_steps ss) → In x ss
unfolding sort_steps
sort_steps-In x [] m = absurd m
sort_steps-In x (s ∷ ss) m = elim (insert_step-In x s (sort_steps ss) m) [
  | inl e ↦ inl e
  | inr k ↦ inr (sort_steps-In x ss k)
]

pub known_steps_defined :
    (lookup : Lookup) (ops : OpMap Json) (s : Step)
    → In s (known_steps lookup ops)
    → lookup s.1 ≡ some s.0
unfolding known_steps
known_steps_defined lookup [] s m = absurd m
known_steps_defined lookup ((op, v) ∷ ops) s m = elim (Option-cases (lookup op)) [
  | inl missing ↦ known_steps_defined lookup ops s (rw (missing, known_steps) at m)
  | inr (def, found) ↦ elim (rw (found, known_steps) at m) [
    | inl e ↦ rw e found
    | inr k ↦ known_steps_defined lookup ops s k
  ]
]

pub known_steps-In :
    (lookup : Lookup) (ops : OpMap Json) (op : OpName) (def : PolicyOperatorDefinition) (v : Json)
    → lookup op ≡ some def
    → In (op, v) ops
    → In (def, op, v) (known_steps lookup ops)
unfolding known_steps
known_steps-In lookup [] op def v e m = absurd m
known_steps-In lookup ((o, w) ∷ ops) op def v e (inl m) =
    let key : o ≡ op = ap (λ (q : OpName × Json). q.0) (sym m) in
    let val : w ≡ v = ap (λ (q : OpName × Json). q.1) (sym m) in
    let found : lookup o ≡ some def = rw key e in
    rw (found, known_steps) (inl (ground (arith, key, val)))
known_steps-In lookup ((o, w) ∷ ops) op def v e (inr m) = elim (Option-cases (lookup o)) [
  | inl missing ↦ rw (missing, known_steps) (known_steps-In lookup ops op def v e m)
  | inr (d, found) ↦ rw (found, known_steps) (inr (known_steps-In lookup ops op def v e m))
]
