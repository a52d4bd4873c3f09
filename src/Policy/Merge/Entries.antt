-- ===== src/Policy/Merge/Entries.antt =====
-- What the loop over an object's entries keeps and establishes.
use oidfed.Common.{
  Str, Dict, get, put, get-put, str_eq, str_eq_iff, str_eq_refl, ◌≡◌, refl, ap, some, List, [], ◌∷◌,
  In, inl, inr, arith, Bool-cases, Option-cases, Result, ok, >>=-ok,
}
use oidfed.Policy.Merge.{PolicyError, or_empty, merge_entries}

-- Every value of the map has the property.
abbrev pub Values : {A : Type 0} → (A → Type 0) → Dict A → Type 0
Values {A} P d = (k : Str) (a : A) → get k d ≡ some a → P a

-- The value under the key is there and has the property.
abbrev pub Found : {A : Type 0} → Str → (A → Type 0) → Dict A → Type 0
Found {A} k P d = (a : A) × (get k d ≡ some a) × P a

pub Values-put :
    {A : Type 0} (P : A → Type 0) (k : Str) (a : A) (d : Dict A)
    → P a
    → Values P d
    → Values P (put k a d)
Values-put P k a d p h j b e = elim (Bool-cases (str_eq k j)) [
  | inl same ↦ let here : a ≡ b = ground (arith, get-put k j a d) in rw (← here) p
  | inr other ↦ h j b (ground (arith, get-put k j a d))
]

pub Values-nil : {A : Type 0} (P : A → Type 0) → Values P []
unfolding get
Values-nil P k a e = cc

module _ {A B : Type 0} (f : Str → List A → B → Result PolicyError (List A)) (P : List A → Type 0)
    (G : B → Type 0) (empty : P [])
    (step : (k : Str) (a : List A) (b : B) (a' : List A) → P a → G b → f k a b ≡ ok a' → P a') where
  or_empty_at : (k : Str) (d : Dict (List A)) → Values P d → P (or_empty (get k d))
  or_empty_at k d h = elim (Option-cases (get k d)) [
    | inl missing ↦ rw missing empty
    | inr (a, found) ↦ rw found (h k a found)
  ]

  pub merge_entries-Values :
      (d : Dict (List A)) (entries : Dict B) (d' : Dict (List A))
      → Values P d
      → ((k : Str) (b : B) → In (k, b) entries → G b)
      → merge_entries f d entries ≡ ok d'
      → Values P d'
  unfolding merge_entries
  merge_entries-Values d [] d' h g e = let same : d ≡ d' = cc in rw (← same) h
  merge_entries-Values d ((k, b) ∷ entries) d' h g e =
      let (x, here, later) = >>=-ok (f k (or_empty (get k d)) b) _ e in
      merge_entries-Values (put k x d) entries d'
        (Values-put P k x d
          (step k (or_empty (get k d)) b x (or_empty_at k d h) (g k b (inl refl)) here) h)
        (λ j c m. g j c (inr m)) later

  module _ (Q : List A → Type 0)
      (keep : (k : Str) (a : List A) (b : B) (a' : List A)
        → P a
        → G b
        → Q a
        → f k a b ≡ ok a'
        → Q a') where
    -- What holds under a key goes on holding.
    pub merge_entries_keep :
        (k : Str) (d : Dict (List A)) (entries : Dict B) (d' : Dict (List A))
        → Values P d
        → ((j : Str) (b : B) → In (j, b) entries → G b)
        → merge_entries f d entries ≡ ok d'
        → Found k Q d
        → Found k Q d'
    unfolding merge_entries
    merge_entries_keep k d [] d' h g e q = let same : d ≡ d' = cc in rw (← same) q
    merge_entries_keep k d ((j, b) ∷ entries) d' h g e (a, at, q) =
        let (x, here, later) = >>=-ok (f j (or_empty (get j d)) b) _ e in
        let p = or_empty_at j d h in
        let gb = g j b (inl refl) in
        merge_entries_keep k (put j x d) entries d'
          (Values-put P j x d (step j (or_empty (get j d)) b x p gb here) h)
          (λ i c m. g i c (inr m)) later
          (elim (Bool-cases (str_eq j k)) [
            | inl same ↦
                let key : j ≡ k = (str_eq_iff j k).0 same in
                let known : or_empty (get j d) ≡ a = rw (key, at) in
                (
                  x,
                  ground (arith, get-put j k x d),
                  keep j (or_empty (get j d)) b x p gb (rw known q) here,
                )
            | inr other ↦ (a, ground (arith, get-put j k x d), q)
          ])

    -- What an entry establishes holds in the end.
    pub merge_entries_establish :
        (k : Str) (b : B) (d : Dict (List A)) (entries : Dict B) (d' : Dict (List A))
        → ((a a' : List A) → P a → G b → f k a b ≡ ok a' → Q a')
        → Values P d
        → ((j : Str) (c : B) → In (j, c) entries → G c)
        → merge_entries f d entries ≡ ok d'
        → In (k, b) entries
        → Found k Q d'
    unfolding merge_entries
    merge_entries_establish k b d [] d' make h g e m = absurd m
    merge_entries_establish k b d ((j, c) ∷ entries) d' make h g e (inl m) =
        let (x, here, later) = >>=-ok (f j (or_empty (get j d)) c) _ e in
        let key : k ≡ j = ap (λ (q : Str × B). q.0) m in
        let val : b ≡ c = ap (λ (q : Str × B). q.1) m in
        let p = or_empty_at j d h in
        merge_entries_keep k (put j x d) entries d'
          (Values-put P j x d (step j (or_empty (get j d)) c x p (g j c (inl refl)) here) h)
          (λ i u n. g i u (inr n)) later
          (
            x,
            rw key (ground (arith, get-put j j x d, str_eq_refl j)),
            make (or_empty (get j d)) x p (g k b (inl m)) (rw (key, val) here),
          )
    merge_entries_establish k b d ((j, c) ∷ entries) d' make h g e (inr m) =
        let (x, here, later) = >>=-ok (f j (or_empty (get j d)) c) _ e in
        merge_entries_establish k b (put j x d) entries d' make
          (Values-put P j x d
            (step j (or_empty (get j d)) c x (or_empty_at j d h) (g j c (inl refl)) here) h)
          (λ i u n. g i u (inr n)) later m
