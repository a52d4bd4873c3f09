-- ===== src/Common/Lists.antt =====
-- Lists over the native numbers: the array methods that the code calls (`some`, `every`, `filter`,
-- `slice`, `find`), and membership by recursion.
use Prim.Native.Nat.{ℕ, zero, suc}
use mathlib.Core.Path.{◌≡◌, refl, ap, sym, ◌∙◌}
use mathlib.Core.Logic.{◌⊎◌, inl, inr}
use mathlib.Core.Bool.{Bool, true, false, ◌&&◌, ◌||◌}
use mathlib.Core.Option.{Option, none, some}
use mathlib.Core.List.{List, [], ◌∷◌, ◌++◌}
use native.Mathlib.Omega.{arith}
use oidfed.Common.Tests.{if◌then◌else◌, Bool-cases}

module _ {ℓ} {A : Type ℓ} where
  abbrev pub length : List A → ℕ
  length [] = 0
  length (x ∷ xs) = suc (length xs)

  abbrev pub get_elem? : List A → ℕ → Option A
  get_elem? [] i = none
  get_elem? (x ∷ xs) zero = some x
  get_elem? (x ∷ xs) (suc i) = get_elem? xs i

  abbrev pub take : ℕ → List A → List A
  take zero xs = []
  take (suc n) [] = []
  take (suc n) (x ∷ xs) = x ∷ take n xs

  -- `xs.some(p)`
  abbrev pub any : (A → Bool) → List A → Bool
  any p [] = false
  any p (x ∷ xs) = p x || any p xs

  -- `xs.every(p)`
  abbrev pub all : (A → Bool) → List A → Bool
  all p [] = true
  all p (x ∷ xs) = p x && all p xs

  -- `xs.filter(p)`
  abbrev pub filter : (A → Bool) → List A → List A
  filter p [] = []
  filter p (x ∷ xs) = let rest = filter p xs in if p x then x ∷ rest else rest

module _ {A : Type 0} where
  -- Membership that computes to a sum of equations, which the tactics read.
  abbrev pub In : A → List A → Type 0
  In x [] = ⊥
  In x (y ∷ ys) = (x ≡ y) ⊎ In x ys

module _ {ℓ κ} {A : Type ℓ} (P : A → Type κ) where
  abbrev pub All : List A → Type κ
  All [] = Unit
  All (x ∷ xs) = P x × All xs

module _ {A : Type 0} where
  pub any_intro : (p : A → Bool) (x : A) (xs : List A) → In x xs → p x ≡ true → any p xs ≡ true
  any_intro p x [] m h = absurd m
  any_intro p x (y ∷ ys) (inl e) h = ground (arith, ap p e)
  any_intro p x (y ∷ ys) (inr m) h = ground (arith, any_intro p x ys m h)

  pub any-witness :
      (p : A → Bool) (xs : List A) → any p xs ≡ true → (x : A) × In x xs × (p x ≡ true)
  any-witness p [] h = cc
  any-witness p (x ∷ xs) h = elim (Bool-cases (p x)) [
    | inl e ↦ (x, inl refl, e)
    | inr e ↦ let (y, m, k) = any-witness p xs (ground arith) in (y, inr m, k)
  ]

  pub all_at : (p : A → Bool) (x : A) (xs : List A) → all p xs ≡ true → In x xs → p x ≡ true
  all_at p x [] h m = absurd m
  all_at p x (y ∷ ys) h (inl e) = ground (arith, ap p e)
  all_at p x (y ∷ ys) h (inr m) = all_at p x ys (ground arith) m

  pub all_intro : (p : A → Bool) (xs : List A) → ((x : A) → In x xs → p x ≡ true) → all p xs ≡ true
  all_intro p [] h = refl
  all_intro p (x ∷ xs) h = ground (arith, h x (inl refl), all_intro p xs (λ y m. h y (inr m)))

  In-filter_kept :
      (p : A → Bool) (x y : A) (ys : List A)
      → p y ≡ true
      → (In x (filter p ys) → In x ys × (p x ≡ true))
      → In x (y ∷ filter p ys)
      → In x (y ∷ ys) × (p x ≡ true)
  In-filter_kept p x y ys e ih (inl k) = (inl k, ground (arith, ap p k))
  In-filter_kept p x y ys e ih (inr m) = let (n, k) = ih m in (inr n, k)

  pub In-filter : (p : A → Bool) (x : A) (xs : List A) → In x (filter p xs) → In x xs × (p x ≡ true)
  In-filter p x [] m = absurd m
  In-filter p x (y ∷ ys) m = elim (Bool-cases (p y)) [
    | inl e ↦ In-filter_kept p x y ys e (In-filter p x ys) (rw e at m)
    | inr e ↦ let (n, k) = In-filter p x ys (rw e at m) in (inr n, k)
  ]

  pub filter_intro :
      (p : A → Bool) (x : A) (xs : List A) → In x xs → p x ≡ true → In x (filter p xs)
  filter_intro p x [] m h = absurd m
  filter_intro p x (y ∷ ys) (inl e) h = rw (sym (ap p e) ∙ h) (inl e)
  filter_intro p x (y ∷ ys) (inr m) h = elim (Bool-cases (p y)) [
    | inl e ↦ rw e (inr (filter_intro p x ys m h))
    | inr e ↦ rw e (filter_intro p x ys m h)
  ]

  pub In-append : (x : A) (xs ys : List A) → In x (xs ++ ys) → In x xs ⊎ In x ys
  In-append x [] ys m = inr m
  In-append x (z ∷ zs) ys (inl e) = inl (inl e)
  In-append x (z ∷ zs) ys (inr m) = elim (In-append x zs ys m) [
    | inl k ↦ inl (inr k)
    | inr k ↦ inr k
  ]

  pub append_left : (x : A) (xs ys : List A) → In x xs → In x (xs ++ ys)
  append_left x [] ys m = absurd m
  append_left x (z ∷ zs) ys (inl e) = inl e
  append_left x (z ∷ zs) ys (inr m) = inr (append_left x zs ys m)

  pub append_right : (x : A) (xs ys : List A) → In x ys → In x (xs ++ ys)
  append_right x [] ys m = m
  append_right x (z ∷ zs) ys m = inr (append_right x zs ys m)

  pub filter-filter :
      (p q : A → Bool) (xs : List A) → filter q (filter p xs) ≡ filter (λ x. p x && q x) xs
  filter-filter p q [] = refl
  filter-filter p q (x ∷ xs) = ground (arith, filter-filter p q xs)

  pub filter_congr :
      (p q : A → Bool) (xs : List A) → ((x : A) → In x xs → p x ≡ q x) → filter p xs ≡ filter q xs
  filter_congr p q [] h = refl
  filter_congr p q (x ∷ xs) h =
      ground (arith, h x (inl refl), filter_congr p q xs (λ y m. h y (inr m)))

  pub any-append : (p : A → Bool) (xs ys : List A) → any p (xs ++ ys) ≡ (any p xs || any p ys)
  any-append p [] ys = refl
  any-append p (x ∷ xs) ys = ground (arith, any-append p xs ys)
