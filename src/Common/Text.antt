-- ===== src/Common/Text.antt =====
-- Strings of the program: sequences of UTF-16 code units.
use Prim.Native.Nat.{ℕ, ◌+◌, ◌-◌, ◌/◌, ◌%◌}
use Prim.Native.Char.{code}
use Prim.Native.String.{String}
use mathlib.Core.Path.{◌≡◌, refl, ap}
use mathlib.Core.Logic.{◌↔◌, inl, inr}
use mathlib.Core.Bool.{Bool, true, false, ◌&&◌, ◌||◌}
use mathlib.Core.List.{List, [], ◌∷◌, ◌++◌}
use native.Mathlib.Omega.{arith}
use oidfed.Common.Tests.{ltb, ◌==◌, if◌then◌else◌, Bool-cases}

abbrev pub Str : Type 0
Str = List ℕ

-- One unit below U+10000, a surrogate pair above.
abbrev units : ℕ → Str
units c =
    if ltb c 65536 then c ∷ [] else (55296 + (c - 65536) / 1024) ∷ (56320 + (c - 65536) % 1024) ∷ []

-- A literal.
abbrev pub js : String → Str
js String.[] = []
js (String.◌∷◌ c s) = units (code c) ++ js s

-- `a === b`
unfoldable pub str_eq : Str → Str → Bool
str_eq [] [] = true
str_eq (x ∷ xs) (y ∷ ys) = x == y && str_eq xs ys
str_eq _ _ = false

pub str_eq→eq : (a b : Str) → str_eq a b ≡ true → a ≡ b
unfolding str_eq
str_eq→eq [] [] h = refl
str_eq→eq (x ∷ xs) (y ∷ ys) h = ground (arith, str_eq→eq xs ys)
str_eq→eq [] (y ∷ ys) h = ground arith
str_eq→eq (x ∷ xs) [] h = ground arith

pub str_eq_refl : (a : Str) → str_eq a a ≡ true
unfolding str_eq
str_eq_refl [] = refl
str_eq_refl (x ∷ xs) = ground (arith, str_eq_refl xs)

pub str_eq_iff : (a b : Str) → (str_eq a b ≡ true) ↔ (a ≡ b)
str_eq_iff a b = (str_eq→eq a b, λ e. rw (← e) (str_eq_refl a))

-- `s.startsWith(p)`
unfoldable pub starts_with : Str → Str → Bool
starts_with s [] = true
starts_with [] (y ∷ ys) = false
starts_with (x ∷ xs) (y ∷ ys) = x == y && starts_with xs ys

-- `s.endsWith(p)`: some rest of `s` is `p`.
unfoldable pub ends_with : Str → Str → Bool
ends_with [] p = str_eq [] p
ends_with (x ∷ xs) p = str_eq (x ∷ xs) p || ends_with xs p

pub ends_with→eq : (s p : Str) → ends_with s p ≡ true → (front : Str) × (s ≡ front ++ p)
unfolding ends_with
ends_with→eq [] p h = ([], (str_eq_iff [] p).0 h)
ends_with→eq (x ∷ xs) p h = elim (Bool-cases (str_eq (x ∷ xs) p)) [
  | inl e ↦ ([], (str_eq_iff (x ∷ xs) p).0 e)
  | inr e ↦
      let (front, same) = ends_with→eq xs p (ground arith) in
      (x ∷ front, ap (λ (t : Str). x ∷ t) same)
]

pub ends_with-append : (front p : Str) → ends_with (front ++ p) p ≡ true
unfolding ends_with
ends_with-append [] [] = ground (arith, str_eq_refl [])
ends_with-append [] (y ∷ ys) = ground (arith, str_eq_refl (y ∷ ys))
ends_with-append (x ∷ front) p = ground (arith, ends_with-append front p)

pub str_ne : (a b : Str) → str_eq a b ≡ false → a ≡ b → ⊥
str_ne a b h e = cc (h, (str_eq_iff a b).1 e)
