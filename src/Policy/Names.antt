-- ===== src/Policy/Names.antt =====
-- Names of operators as keys: equality, and the operators of one parameter as an object whose keys
-- are names, in the order of insertion.
use oidfed.Common.{
  ◌≡◌, refl, ap, ◌↔◌, Bool, true, false, Option, none, some, List, [], ◌∷◌, str_eq, str_eq_iff,
  str_eq_refl, if◌then◌else◌, arith,
}
use oidfed.Policy.Operators.{
  OpName, value, add, default, one_of, subset_of, superset_of, essential, other,
}

unfoldable pub op_eq : OpName → OpName → Bool
op_eq value value = true
op_eq add add = true
op_eq default default = true
op_eq one_of one_of = true
op_eq subset_of subset_of = true
op_eq superset_of superset_of = true
op_eq essential essential = true
op_eq (other s) (other t) = str_eq s t
op_eq _ _ = false

pub op_eq_refl : (a : OpName) → op_eq a a ≡ true
unfolding op_eq
op_eq_refl (other s) = str_eq_refl s
op_eq_refl value = refl
op_eq_refl _ = refl

pub op_eq_iff : (a b : OpName) → (op_eq a b ≡ true) ↔ (a ≡ b)
op_eq_iff a b = (to a b, λ e. rw (← e) (op_eq_refl a))
  where
    to : (a b : OpName) → op_eq a b ≡ true → a ≡ b
    to (other s) (other t) h = ap other ((str_eq_iff s t).0 (unfold op_eq in h))
    to value b h = unfold op_eq in ground arith
    to a b h = unfold op_eq in ground arith

abbrev pub OpMap : Type 0 → Type 0
OpMap V = List (OpName × V)

module _ {V : Type 0} where
  unfoldable pub op_get : OpName → OpMap V → Option V
  op_get k [] = none
  op_get k ((j, v) ∷ d) = if op_eq j k then some v else op_get k d

  unfoldable pub op_put : OpName → V → OpMap V → OpMap V
  op_put k v [] = (k, v) ∷ []
  op_put k v ((j, w) ∷ d) = if op_eq j k then (j, v) ∷ d else (j, w) ∷ op_put k v d

  pub op_get-op_put :
      (k j : OpName) (v : V) (d : OpMap V)
      → op_get j (op_put k v d) ≡ (if op_eq k j then some v else op_get j d)
  unfolding op_get op_put
  op_get-op_put k j v [] = refl
  op_get-op_put k j v ((i, w) ∷ d) =
      ground (arith, op_eq_iff k j, op_eq_iff i k, op_eq_iff i j, op_get-op_put k j v d)
