-- ===== src/Common/Maps.antt =====
-- Objects and maps with string keys, in the order of insertion.
use mathlib.Core.Path.{◌≡◌, refl, ap, sym, ◌∙◌}
use mathlib.Core.Logic.{inl, inr}
use mathlib.Core.Bool.{Bool, true, false, false≢true}
use mathlib.Core.Option.{Option, none, some}
use mathlib.Core.List.{List, [], ◌∷◌}
use native.Mathlib.Omega.{arith}
use Prim.Native.Nat.{suc, ◌<◌, ◌≤◌}
use oidfed.Common.Tests.{if◌then◌else◌, Bool-cases, is_some}
use oidfed.Common.Lists.{length, In, filter}
use oidfed.Common.Text.{Str, str_eq, str_eq_iff, str_eq_refl}

abbrev pub Dict : Type 0 → Type 0
Dict V = List (Str × V)

module _ {V : Type 0} where
  -- `d[k]`, `d.get(k)`
  unfoldable pub get : Str → Dict V → Option V
  get k [] = none
  get k ((j, v) ∷ d) = if str_eq j k then some v else get k d

  -- `d[k] = v`, `d.set(k, v)`: in place, or behind the last entry.
  unfoldable pub put : Str → V → Dict V → Dict V
  put k v [] = (k, v) ∷ []
  put k v ((j, w) ∷ d) = if str_eq j k then (j, v) ∷ d else (j, w) ∷ put k v d

  -- `delete d[k]`, `d.delete(k)`
  unfoldable pub delete : Str → Dict V → Dict V
  delete k [] = []
  delete k ((j, w) ∷ d) = let rest = delete k d in if str_eq j k then rest else (j, w) ∷ rest

  pub get-put :
      (k j : Str) (v : V) (d : Dict V)
      → get j (put k v d) ≡ (if str_eq k j then some v else get j d)
  unfolding get put
  get-put k j v [] = refl
  get-put k j v ((i, w) ∷ d) =
      ground (arith, str_eq_iff k j, str_eq_iff i k, str_eq_iff i j, get-put k j v d)

  pub get-delete :
      (k j : Str) (d : Dict V) → get j (delete k d) ≡ (if str_eq k j then none else get j d)
  unfolding get delete
  get-delete k j [] = ground arith
  get-delete k j ((i, w) ∷ d) =
      ground (arith, str_eq_iff k j, str_eq_iff i k, str_eq_iff i j, get-delete k j d)

  -- `d.has(k)`
  abbrev pub has : Str → Dict V → Bool
  has k d = is_some (get k d)

  -- An object has each key once.
  abbrev pub Distinct : Dict V → Type 0
  Distinct [] = Unit
  Distinct ((k, v) ∷ d) = (get k d ≡ none) × Distinct d

  pub put-Distinct : (k : Str) (v : V) (d : Dict V) → Distinct d → Distinct (put k v d)
  unfolding get put
  put-Distinct k v [] h = (refl, tt)
  put-Distinct k v ((j, w) ∷ d) (fresh, h) = elim (Bool-cases (str_eq j k)) [
    | inl e ↦ rw e (fresh, h)
    | inr e ↦ rw e (fresh_of_ne e, put-Distinct k v d h)
  ]
    where
      fresh_of_ne : str_eq j k ≡ false → get j (put k v d) ≡ none
      fresh_of_ne e = ground (arith, get-put k j v d, str_eq_iff k j, str_eq_iff j k)

  pub delete-Distinct : (k : Str) (d : Dict V) → Distinct d → Distinct (delete k d)
  unfolding get delete
  delete-Distinct k [] h = tt
  delete-Distinct k ((j, w) ∷ d) (fresh, h) = elim (Bool-cases (str_eq j k)) [
    | inl e ↦ rw e (delete-Distinct k d h)
    | inr e ↦ rw e (ground (arith, get-delete k j d), delete-Distinct k d h)
  ]

  pub length-delete : (k : Str) (d : Dict V) → length (delete k d) ≤ length d
  unfolding delete
  length-delete k [] = omega arith
  length-delete k ((j, w) ∷ d) = ground (arith, length-delete k d)

  pub length-delete_of_has :
      (k : Str) (d : Dict V) → has k d ≡ true → length (delete k d) < length d
  unfolding delete get
  length-delete_of_has k [] h = cc
  length-delete_of_has k ((j, w) ∷ d) h =
      ground (arith, length-delete k d, length-delete_of_has k d)

  -- With no more entries than `d`, a map that has every key of `d` has no other.
  pub covers :
      (d e : Dict V)
      → Distinct d
      → length e ≤ length d
      → ((k : Str) → has k d ≡ true → has k e ≡ true)
      → (k : Str) → has k e ≡ true
      → has k d ≡ true
  unfolding get
  covers [] [] u n sub k h = h
  covers [] (x ∷ e) u n sub k h = absurd (omega arith)
  covers ((j, v) ∷ d) e (fresh, u) n sub k h = elim (Bool-cases (str_eq j k)) [
    | inl same ↦ rw same
    | inr other ↦
        rw other (covers d (delete j e) u (shorter here) keep k (ground (arith, get-delete j k e)))
  ]
    where
      here : has j e ≡ true
      here = sub j (rw (str_eq_refl j))

      shorter : has j e ≡ true → length (delete j e) ≤ length d
      shorter h = omega (arith, length-delete_of_has j e h)

      keep : (i : Str) → has i d ≡ true → has i (delete j e) ≡ true
      keep i hi = elim (Bool-cases (str_eq j i)) [
        | inl same ↦ absurd (
            false≢true
              (sym (ap is_some (ap (λ a. get a d) (sym ((str_eq_iff j i).0 same)) ∙ fresh)) ∙ hi))
        | inr other ↦ ground (arith, sub i, get-delete j i e)
      ]

  pub get-In : (k : Str) (d : Dict V) {v : V} → get k d ≡ some v → In (k, v) d
  unfolding get
  get-In k [] h = absurd (cc)
  get-In k ((j, w) ∷ d) h = elim (Bool-cases (str_eq j k)) [
    | inl e ↦ inl (ground (arith, str_eq_iff j k))
    | inr e ↦ inr (get-In k d (ground arith))
  ]

  pub In-get : (k : Str) (v : V) (d : Dict V) → Distinct d → In (k, v) d → get k d ≡ some v
  unfolding get
  In-get k v [] u m = absurd m
  In-get k v ((j, w) ∷ d) (fresh, u) (inl e) = ground (arith, e, str_eq_refl j)
  In-get k v ((j, w) ∷ d) (fresh, u) (inr m) = ground (arith, str_eq_iff j k, In-get k v d u m)

  pub absent_cons :
      (k j : Str) (v : V) (d : Dict V)
      → get k ((j, v) ∷ d) ≡ none
      → (str_eq j k ≡ false) × (get k d ≡ none)
  unfolding get
  absent_cons k j v d h = ground arith

  -- An entry that passes the test is kept.
  pub get-filter :
      (p : Str × V → Bool) (k : Str) (d : Dict V) {v : V}
      → get k d ≡ some v
      → p (k, v) ≡ true
      → get k (filter p d) ≡ some v
  unfolding get
  get-filter p k [] h q = h
  get-filter p k ((j, w) ∷ d) {v} h q = elim (Bool-cases (str_eq j k)) [
    | inl e ↦
        let key : j ≡ k = (str_eq_iff j k).0 e in
        let val : w ≡ v = ground arith in
        let here : p (j, w) ≡ true = rw (key, val) q in rw (here, filter) (rw e (ap some val))
    | inr e ↦ elim (Bool-cases (p (j, w))) [
      | inl stays ↦ rw (stays, filter) (rw e (get-filter p k d (ground arith) q))
      | inr goes ↦ rw (goes, filter) (get-filter p k d (ground arith) q)
    ]
  ]

  pub length-filter : (p : Str × V → Bool) (d : Dict V) → length (filter p d) ≤ length d
  length-filter p [] = omega arith
  length-filter p (x ∷ d) = ground (arith, length-filter p d)

  pub length-put :
      (k : Str) (v : V) (d : Dict V)
      → length (put k v d) ≡ (if has k d then length d else suc (length d))
  unfolding put get
  length-put k v [] = refl
  length-put k v ((j, w) ∷ d) = ground (arith, length-put k v d)
