-- ===== src/Common/Results.antt =====
-- `Result` of packages/core/src/errors.ts, and the chains of fallible steps.
use mathlib.Core.Path.{◌≡◌, refl, ap}
use mathlib.Core.Logic.{◌⊎◌, inl, inr}

pub data Result (Error Value : Type 0) : Type 0 where
  err : Error → Result Error Value
  ok : Value → Result Error Value

infixl 5 ◌>>=◌
abbrev pub ◌>>=◌ :
    {Error Value Out : Type 0} → Result Error Value → (Value → Result Error Out) → Result Error Out
err failure >>= next = err failure
ok found >>= next = next found

pub >>=-ok :
    {Error Value Out : Type 0} (first : Result Error Value) (next : Value → Result Error Out)
    {out : Out}
    → (first >>= next) ≡ ok out
    → (found : Value) × (first ≡ ok found) × (next found ≡ ok out)
>>=-ok (err failure) next chain = cc
>>=-ok (ok found) next chain = (found, refl, chain)

-- A chain of steps fails in the first step or in the next.
pub >>=-err :
    {Error Value Out : Type 0} (first : Result Error Value) (next : Value → Result Error Out)
    {failure : Error}
    → (first >>= next) ≡ err failure
    → (first ≡ err failure) ⊎ ((found : Value) × (first ≡ ok found) × (next found ≡ err failure))
>>=-err (err e) next {failure} h = inl (let same : e ≡ failure = cc h in ap err same)
>>=-err (ok found) next h = inr (found, refl, h)
