-- ===== src/Authority/Order.antt =====
-- `compareStrings` of packages/authority/src/storage/memory.ts, and `Array.prototype.sort`, which is
-- stable, with a comparison of which only `<= 0` matters.
use oidfed.Common.{
  Str, ltb, ◌==◌, ◌≡◌, refl, Bool, true, false, Bool-cases, List, [], ◌∷◌, if◌then◌else◌, In, inl,
  inr, ◌⊎◌, arith,
}

-- `left < right` on strings: by code units.
unfoldable pub str_lt : Str → Str → Bool
str_lt left [] = false
str_lt [] (b ∷ right) = true
str_lt (a ∷ left) (b ∷ right) =
    if ltb a b then true else if a == b then str_lt left right else false

-- The sign of a comparison: -1, 0 and 1.
pub data Sign : Type 0 where
  less : Sign
  same : Sign
  greater : Sign

unfoldable pub compare_strings : Str → Str → Sign
compare_strings left right =
    if str_lt left right then less else if str_lt right left then greater else same

pub str_lt_irrefl : (a : Str) → str_lt a a ≡ false
unfolding str_lt
str_lt_irrefl [] = refl
str_lt_irrefl (x ∷ a) = ground (arith, str_lt_irrefl a)

pub str_lt_trans : (a b c : Str) → str_lt a b ≡ true → str_lt b c ≡ true → str_lt a c ≡ true
unfolding str_lt
str_lt_trans a [] c h k = cc
str_lt_trans a (y ∷ b) [] h k = cc
str_lt_trans [] (y ∷ b) (z ∷ c) h k = refl
str_lt_trans (x ∷ a) (y ∷ b) (z ∷ c) h k = ground (arith, str_lt_trans a b c)

-- Two strings neither of which is less are one.
pub str_lt_antisym : (a b : Str) → str_lt a b ≡ false → str_lt b a ≡ false → a ≡ b
unfolding str_lt
str_lt_antisym [] [] h k = refl
str_lt_antisym [] (y ∷ b) h k = cc
str_lt_antisym (x ∷ a) [] h k = cc
str_lt_antisym (x ∷ a) (y ∷ b) h k = ground (arith, str_lt_antisym a b)

pub not_lt_trans : (a b c : Str) → str_lt a b ≡ false → str_lt b c ≡ false → str_lt a c ≡ false
not_lt_trans a b c h k = elim (Bool-cases (str_lt a c)) [
  | inr e ↦ e
  | inl lt ↦ elim (Bool-cases (str_lt c b)) [
    | inl cb ↦ absurd (cc (h, str_lt_trans a c b lt cb))
    | inr bc ↦
        let e : b ≡ c = str_lt_antisym b c k bc in
        let ab : str_lt a b ≡ true = rw e lt in absurd (cc (h, ab))
  ]
]

module _ {A : Type 0} (precedes : A → A → Bool) where
  unfoldable pub insert : A → List A → List A
  insert x [] = x ∷ []
  insert x (y ∷ ys) = let rest = insert x ys in if precedes x y then x ∷ y ∷ ys else y ∷ rest

  unfoldable pub sort : List A → List A
  sort [] = []
  sort (x ∷ xs) = insert x (sort xs)

  pub In-insert : (z x : A) (ys : List A) → In z (insert x ys) → (z ≡ x) ⊎ In z ys
  unfolding insert
  In-insert z x [] m = m
  In-insert z x (y ∷ ys) m = ground (arith, In-insert z x ys)

  pub insert_intro : (z x : A) (ys : List A) → (z ≡ x) ⊎ In z ys → In z (insert x ys)
  unfolding insert
  insert_intro z x [] m = m
  insert_intro z x (y ∷ ys) m = ground (arith, insert_intro z x ys)

  pub In-sort : (z : A) (xs : List A) → In z (sort xs) → In z xs
  unfolding sort
  In-sort z [] m = m
  In-sort z (x ∷ xs) m = elim (In-insert z x (sort xs) m) [
    | inl e ↦ inl e
    | inr k ↦ inr (In-sort z xs k)
  ]

  pub sort_intro : (z : A) (xs : List A) → In z xs → In z (sort xs)
  unfolding sort
  sort_intro z [] m = m
  sort_intro z (x ∷ xs) (inl e) = insert_intro z x (sort xs) (inl e)
  sort_intro z (x ∷ xs) (inr m) = insert_intro z x (sort xs) (inr (sort_intro z xs m))

  -- Every element precedes those behind it.
  abbrev pub IsSorted : List A → Type 0
  IsSorted [] = Unit
  IsSorted (x ∷ xs) = ((y : A) → In y xs → precedes x y ≡ true) × IsSorted xs

  module _ (total : (x y : A) → precedes x y ≡ false → precedes y x ≡ true)
      (trans : (x y z : A) → precedes x y ≡ true → precedes y z ≡ true → precedes x z ≡ true) where
    insert-IsSorted : (x : A) (ys : List A) → IsSorted ys → IsSorted (insert x ys)
    unfolding insert
    insert-IsSorted x [] s = (λ y m. absurd m, tt)
    insert-IsSorted x (y ∷ ys) s = elim (Bool-cases (precedes x y)) [
      | inl hit ↦
          rw hit ((λ z m. elim m [ inl e ↦ rw e hit | inr k ↦ trans x y z hit (s.0 z k) ]), s)
      | inr miss ↦ rw miss (
        (λ z m. elim (In-insert z x ys m) [ inl e ↦ rw e (total x y miss) | inr k ↦ s.0 z k ]),
        insert-IsSorted x ys s.1,
      )
    ]

    pub sort-IsSorted : (xs : List A) → IsSorted (sort xs)
    unfolding sort
    sort-IsSorted [] = tt
    sort-IsSorted (x ∷ xs) = insert-IsSorted x (sort xs) (sort-IsSorted xs)
