-- ===== src/Policy/Merge/Pairs.antt =====
-- The check that the operators of a parameter combine, pair by pair.
use oidfed.Common.{
  Str, ◌≡◌, ◌≢◌, ap, sym, ◌∙◌, true, some, List, [], ◌∷◌, In, inl, inr, arith, Bool-cases,
  Option-cases, and_true, ok,
}
use oidfed.Json.{Json}
use oidfed.Policy.Operators.{OpName, PolicyOperatorDefinition}
use oidfed.Policy.Names.{op_eq, op_eq_iff, OpMap, op_get}
use oidfed.Policy.Custom.{Lookup}
use oidfed.Policy.Merge.{known_operators, combinable, check_against, check_pairs}

abbrev Known : Type 0
Known = OpName × PolicyOperatorDefinition × Json

module _ (lookup : Lookup) (entity_type param : Str) where
  known_operators-In :
      (op : OpName) (def : PolicyOperatorDefinition) (v : Json) (ops : OpMap Json)
      → lookup op ≡ some def
      → op_get op ops ≡ some v
      → In (op, def, v) (known_operators lookup entity_type param ops)
  unfolding op_get known_operators
  known_operators-In op def v [] known e = absurd (cc e)
  known_operators-In op def v ((o, w) ∷ ops) known e = elim (Bool-cases (op_eq o op)) [
    | inl same ↦
        let key : o ≡ op = (op_eq_iff o op).0 same in
        let val : w ≡ v = ground arith in
        let known' : lookup o ≡ some def = rw key known in
        rw (known', known_operators) (inl (ground (arith, key, val)))
    | inr other ↦ elim (Option-cases (lookup o)) [
      | inl missing ↦
          rw (missing, known_operators) (known_operators-In op def v ops known (ground arith))
      | inr (d, found) ↦
          rw (found, known_operators) (inr (known_operators-In op def v ops known (ground arith)))
    ]
  ]

  check_against_at :
      (a b : Known) (bs : List Known)
      → check_against lookup entity_type param a bs ≡ ok tt
      → In b bs
      → combinable lookup entity_type param a b ≡ true
  unfolding check_against
  check_against_at a b [] h m = absurd m
  check_against_at a b (c ∷ bs) h (inl e) = rw e (ground arith)
  check_against_at a b (c ∷ bs) h (inr m) = check_against_at a b bs (ground arith) m

  combinable_sym :
      (a b : Known)
      → combinable lookup entity_type param a b ≡ true
      → combinable lookup entity_type param b a ≡ true
  combinable_sym a b h = ground arith

  -- Whichever of two operators comes first, they combine both ways.
  check_pairs_at :
      (a b : Known) (known : List Known)
      → check_pairs lookup entity_type param known ≡ ok tt
      → a.0 ≢ b.0
      → In a known
      → In b known
      → combinable lookup entity_type param a b ≡ true
  unfolding check_pairs
  check_pairs_at a b [] h ne m n = absurd m
  check_pairs_at a b (c ∷ known) h ne (inl e) (inl d) =
      absurd (ne (ap (λ (k : Known). k.0) (e ∙ sym d)))
  check_pairs_at a b (c ∷ known) h ne (inl e) (inr n) =
      rw e (check_against_at c b known (ground arith) n)
  check_pairs_at a b (c ∷ known) h ne (inr m) (inl d) =
      rw d (combinable_sym c a (check_against_at c a known (ground arith) m))
  check_pairs_at a b (c ∷ known) h ne (inr m) (inr n) =
      check_pairs_at a b known (ground arith) ne m n

-- Any two operators of the parameter, each with its definition, combine by both definitions.
abbrev pub Combines : Lookup → OpMap Json → Type 0
Combines lookup ops =
    (a b : OpName) (def_a def_b : PolicyOperatorDefinition) (v w : Json)
    → lookup a ≡ some def_a
    → lookup b ≡ some def_b
    → a ≢ b
    → op_get a ops ≡ some v
    → op_get b ops ≡ some w
    → (def_a.can_combine_with b v w ≡ true) × (def_b.can_combine_with a w v ≡ true)

pub check_pairs-Combines :
    (lookup : Lookup) (entity_type param : Str) (ops : OpMap Json)
    → check_pairs lookup entity_type param (known_operators lookup entity_type param ops) ≡ ok tt
    → Combines lookup ops
check_pairs-Combines lookup entity_type param ops h a b def_a def_b v w known_a known_b ne at_a
      at_b =
    and_true (
      check_pairs_at lookup entity_type param (a, def_a, v) (b, def_b, w)
        (known_operators lookup entity_type param ops) h ne
        (known_operators-In lookup entity_type param a def_a v ops known_a at_a)
        (known_operators-In lookup entity_type param b def_b w ops known_b at_b))
