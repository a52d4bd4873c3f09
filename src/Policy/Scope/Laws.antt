-- ===== src/Policy/Scope/Laws.antt =====
-- A scope and its words.
use mathlib.Core.List.{append-nil, append_assoc}
use oidfed.Common.{
  ℕ, Str, ◌≡◌, ◌≢◌, refl, ap, ◌∙◌, true, false, List, [], ◌∷◌, ◌++◌, All, filter, ◌==◌, arith,
  Bool-cases, inl, inr,
}
use oidfed.Policy.Scope.{space, split_from, is_nonempty, normalize_scope, denormalize_scope}

abbrev NoSpace : Str → Type 0
NoSpace = All (λ c. c ≢ space)

-- A word of a scope: not empty, and without spaces.
abbrev pub IsWord : Str → Type 0
IsWord w = (is_nonempty w ≡ true) × NoSpace w

NoSpace-snoc : (w : Str) (c : ℕ) → NoSpace w → c ≢ space → NoSpace (w ++ c ∷ [])
NoSpace-snoc [] c h n = (n, tt)
NoSpace-snoc (x ∷ w) c (p, h) n = (p, NoSpace-snoc w c h n)

split_from-NoSpace : (word s : Str) → NoSpace word → All NoSpace (split_from word s)
unfolding split_from
split_from-NoSpace word [] h = (h, tt)
split_from-NoSpace word (c ∷ s) h = elim (Bool-cases (c == space)) [
  | inl e ↦ rw e (h, split_from-NoSpace [] s tt)
  | inr e ↦ rw e (split_from-NoSpace (word ++ c ∷ []) s (NoSpace-snoc word c h (ground arith)))
]

filter-IsWord : (ws : List Str) → All NoSpace ws → All IsWord (filter is_nonempty ws)
filter-IsWord [] h = tt
filter-IsWord ([] ∷ ws) (p, h) = filter-IsWord ws h
filter-IsWord ((c ∷ w) ∷ ws) (p, h) = ((refl, p), filter-IsWord ws h)

-- The words of a normalised scope are not empty and hold no space.
pub normalize_scope-IsWord : (scope : Str) → All IsWord (normalize_scope scope)
unfolding normalize_scope
normalize_scope-IsWord scope = filter-IsWord (split_from [] scope) (split_from-NoSpace [] scope tt)

split_from-word :
    (word w : Str) (rest : Str)
    → NoSpace w
    → split_from word (w ++ space ∷ rest) ≡ (word ++ w) ∷ split_from [] rest
unfolding split_from
split_from-word word [] rest h = rw append-nil
split_from-word word (c ∷ w) rest (n, h) =
    let here : (c == space) ≡ false = ground arith in
    rw (here, split_from) (split_from-word (word ++ c ∷ []) w rest h ∙ rw append_assoc refl)

split_from-last : (word w : Str) → NoSpace w → split_from word w ≡ (word ++ w) ∷ []
unfolding split_from
split_from-last word [] h = rw append-nil
split_from-last word (c ∷ w) (n, h) =
    let here : (c == space) ≡ false = ground arith in
    rw (here, split_from) (split_from-last (word ++ c ∷ []) w h ∙ rw append_assoc refl)

-- A list of words, none of them empty and none with a space, is what normalising its joined text
-- gives.
pub normalize_scope-denormalize_scope :
    (ws : List Str) → All IsWord ws → normalize_scope (denormalize_scope ws) ≡ ws
unfolding normalize_scope denormalize_scope
normalize_scope-denormalize_scope [] h = refl
normalize_scope-denormalize_scope (w ∷ []) ((full, clean), h) =
    rw (split_from-last [] w clean, full)
normalize_scope-denormalize_scope (w ∷ v ∷ ws) ((full, clean), h) =
    rw (split_from-word [] w (denormalize_scope (v ∷ ws)) clean, full)
      (ap (λ (t : List Str). w ∷ t) (normalize_scope-denormalize_scope (v ∷ ws) h))
