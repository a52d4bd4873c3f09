-- ===== src/Chain/Duplicates/Laws.antt =====
-- The fuel that the scanners of Chain/Duplicates take, by the task and the length of the text.
use oidfed.Common.{
  ℕ, zero, suc, ◌+◌, ◌≤◌, Str, length, ◌≡◌, ◌≢◌, Option, some, List, [], ◌∷◌, ◌++◌, ◌==◌, arith,
  Bool-cases, Option-cases, inl, inr,
}
use oidfed.Chain.Duplicates.{
  skip_whitespace, literal, parse_primitive, Scan, out_of_fuel, thrown, scanned, then_scan, behind,
  Task, value, elements, members, parse_string, parse_array, parse_object, parse_value,
  next_element, parse_elements, next_member, parse_member, parse_members, step, scan, enough, noted,
  ends_primitive,
}

-- A scan that came to an end, with no more left than it started with.
abbrev pub HasEnded : ℕ → Scan → Type 0
HasEnded n out_of_fuel = ⊥
HasEnded n thrown = Unit
HasEnded n (scanned rest duplicates) = length rest ≤ n

length-skip : (s : Str) → length (skip_whitespace s) ≤ length s
unfolding skip_whitespace
length-skip [] = omega arith
length-skip (c ∷ s) = let rest = length-skip s in ground arith

length-primitive : (s : Str) → length (parse_primitive s) ≤ length s
unfolding parse_primitive
length-primitive [] = omega arith
length-primitive (c ∷ s) =
    let rest = length-primitive s in
    elim (Bool-cases (ends_primitive c)) [
      | inl e ↦ rw (e, parse_primitive) (omega arith)
      | inr e ↦ rw (e, parse_primitive) (omega (arith, rest))
    ]

length-literal : (s text rest : Str) → literal s ≡ some (text, rest) → length rest ≤ length s
unfolding literal
length-literal [] text rest h = absurd (cc h)
length-literal (c ∷ []) text rest h = ground (arith, h)
length-literal (c ∷ d ∷ s) text rest h = elim (Bool-cases (c == 92)) [
  | inl e ↦ elim (Option-cases (literal s)) [
    | inl e' ↦ absurd (cc (rw (e, e', literal) at h))
    | inr ((t, r), e') ↦
        let same : some (c ∷ d ∷ t, r) ≡ some (text, rest) = rw (e, e', literal) at h in
        let shorter = length-literal s t r e' in ground (arith, same, shorter)
  ]
  | inr e ↦ elim (Bool-cases (c == 34)) [
    | inl e' ↦
        let same : some (c ∷ [], d ∷ s) ≡ some (text, rest) = rw (e, e', literal) at h in
        ground (arith, same)
    | inr e' ↦ elim (Option-cases (literal (d ∷ s))) [
      | inl e'' ↦ absurd (cc (rw (e, e', e'', literal) at h))
      | inr ((t, r), e'') ↦
          let same : some (c ∷ t, r) ≡ some (text, rest) = rw (e, e', e'', literal) at h in
          let shorter = length-literal (d ∷ s) t r e'' in ground (arith, same, shorter)
    ]
  ]
]

HasEnded-le : (m n : ℕ) (r : Scan) → HasEnded m r → m ≤ n → HasEnded n r
HasEnded-le m n thrown h le = tt
HasEnded-le m n (scanned rest duplicates) h le = omega (arith, h, le)
HasEnded-le m n out_of_fuel h le = absurd h

behind-HasEnded :
    (n : ℕ) (duplicates : List Str) (r : Scan) → HasEnded n r → HasEnded n (behind duplicates r)
behind-HasEnded n duplicates thrown h = tt
behind-HasEnded n duplicates (scanned rest more) h = h
behind-HasEnded n duplicates out_of_fuel h = absurd h

then-HasEnded :
    (m n : ℕ) (r : Scan) (next : Str → List Str → Scan)
    → HasEnded m r
    → ((rest : Str) (duplicates : List Str) → length rest ≤ m → HasEnded n (next rest duplicates))
    → HasEnded n (then_scan r next)
then-HasEnded m n thrown next h f = tt
then-HasEnded m n (scanned rest duplicates) next h f = f rest duplicates h
then-HasEnded m n out_of_fuel next h f = absurd h

-- The fuel that a task takes on a text of a length.
abbrev pub need : Task → ℕ → ℕ
need (value path) n = suc (n + n)
need (elements path) n = suc (suc (n + n))
need (members path seen) n = suc (suc (n + n))

module _ (parse_literal : Str → Option Str) where
  string-HasEnded :
      (n : ℕ) (s : Str) (next : Str → Str → Scan)
      → ((key rest : Str) → length rest ≤ length s → HasEnded n (next key rest))
      → HasEnded n (parse_string parse_literal s next)
  string-HasEnded n s next f = elim (Option-cases (literal s)) [
    | inl e ↦ rw (parse_string, e) tt
    | inr ((text, rest), e) ↦ elim (Option-cases (parse_literal (34 ∷ text))) [
      | inl e' ↦ rw (parse_string, e, e') tt
      | inr (key, e') ↦ rw (parse_string, e, e') (f key rest (length-literal s text rest e))
    ]
  ]

  module _ (again : Task → Str → Scan) (fuel : ℕ)
      (ends : (task : Task) (s : Str)
        → need task (length s) ≤ fuel
        → HasEnded (length s) (again task s)) where
    -- A scanner that goes on behind at least one unit.
    on_rest :
        (task : Task) (s : Str) (n : ℕ)
        → length s ≤ n
        → need task (length s) ≤ fuel
        → HasEnded n (again task s)
    on_rest task s n le enough' = HasEnded-le (length s) n (again task s) (ends task s enough') le

    next_element-HasEnded :
        (path : List Str) (s : Str) (n : ℕ)
        → length s ≤ n
        → n + n ≤ fuel
        → HasEnded n (next_element parse_literal again path s)
    unfolding next_element
    next_element-HasEnded path [] n le enough' = tt
    next_element-HasEnded path (c ∷ s) n le enough' =
        let shorter = length-skip s in
        elim (Bool-cases (c == 93)) [
          | inl e ↦ rw e (omega arith)
          | inr e ↦ elim (Bool-cases (c == 44)) [
            | inr e' ↦ rw (e, e') tt
            | inl e' ↦
                rw (e, e')
                  (on_rest (elements path) (skip_whitespace s) n (omega arith) (omega arith))
          ]
        ]

    elements-HasEnded :
        (path : List Str) (s : Str)
        → length s + length s + 1 ≤ fuel
        → HasEnded (length s) (parse_elements parse_literal again path s)
    unfolding parse_elements
    elements-HasEnded path [] enough' = omega arith
    elements-HasEnded path (c ∷ s) enough' =
        then-HasEnded (length (c ∷ s)) (length (c ∷ s)) (again (value path) (c ∷ s)) _
          (ends (value path) (c ∷ s) (omega arith))
          (λ rest duplicates le. behind-HasEnded _ duplicates _ (
            next_element-HasEnded path (skip_whitespace rest) (length (c ∷ s))
              (let shorter = length-skip rest in omega arith) (omega arith)))

    next_member-HasEnded :
        (path seen : List Str) (s : Str) (n : ℕ)
        → length s ≤ n
        → n + n ≤ fuel
        → HasEnded n (next_member parse_literal again path seen s)
    unfolding next_member
    next_member-HasEnded path seen [] n le enough' = tt
    next_member-HasEnded path seen (c ∷ s) n le enough' =
        let shorter = length-skip s in
        elim (Bool-cases (c == 125)) [
          | inl e ↦ rw e (omega arith)
          | inr e ↦ elim (Bool-cases (c == 44)) [
            | inr e' ↦ rw (e, e') tt
            | inl e' ↦
                rw (e, e')
                  (on_rest (members path seen) (skip_whitespace s) n (omega arith) (omega arith))
          ]
        ]

    member-HasEnded :
        (path seen : List Str) (key s : Str) (n : ℕ)
        → length s ≤ n
        → n + n ≤ fuel
        → HasEnded n (parse_member parse_literal again path seen key s)
    unfolding parse_member
    member-HasEnded path seen key [] n le enough' = tt
    member-HasEnded path seen key (c ∷ s) n le enough' = elim (Bool-cases (c == 58)) [
      | inr e ↦ rw e tt
      | inl e ↦ rw e (
          let shorter = length-skip s in
          then-HasEnded (length (skip_whitespace s)) n
            (again (value (path ++ key ∷ [])) (skip_whitespace s)) _
            (ends (value (path ++ key ∷ [])) (skip_whitespace s) (omega arith))
            (λ rest duplicates le'. behind-HasEnded n duplicates _ (
              next_member-HasEnded path seen (skip_whitespace rest) n
                (let less = length-skip rest in omega arith) enough')))
    ]

    members-HasEnded :
        (path seen : List Str) (s : Str)
        → length s + length s + 1 ≤ fuel
        → HasEnded (length s) (parse_members parse_literal again path seen s)
    unfolding parse_members
    members-HasEnded path seen [] enough' = omega arith
    members-HasEnded path seen (c ∷ s) enough' = elim (Bool-cases (c == 34)) [
      | inr e ↦ rw e tt
      | inl e ↦ rw e (
          string-HasEnded (length (c ∷ s)) s _ (λ key rest le.
            behind-HasEnded (length (c ∷ s)) (noted path seen key) _ (
              member-HasEnded path (key ∷ seen) key (skip_whitespace rest) (length (c ∷ s))
                (let less = length-skip rest in omega arith) (omega arith))))
    ]

    array-HasEnded :
        (path : List Str) (s : Str) (n : ℕ)
        → length s ≤ n
        → suc (suc (n + n)) ≤ fuel
        → HasEnded n (parse_array parse_literal again path s)
    unfolding parse_array
    array-HasEnded path [] n le enough' = omega arith
    array-HasEnded path (c ∷ s) n le enough' = elim (Bool-cases (c == 93)) [
      | inl e ↦ rw e (omega arith)
      | inr e ↦ rw e (on_rest (elements path) (c ∷ s) n le (omega arith))
    ]

    object-HasEnded :
        (path : List Str) (s : Str) (n : ℕ)
        → length s ≤ n
        → suc (suc (n + n)) ≤ fuel
        → HasEnded n (parse_object parse_literal again path s)
    unfolding parse_object
    object-HasEnded path [] n le enough' = omega arith
    object-HasEnded path (c ∷ s) n le enough' = elim (Bool-cases (c == 125)) [
      | inl e ↦ rw e (omega arith)
      | inr e ↦ rw e (on_rest (members path []) (c ∷ s) n le (omega arith))
    ]

    value-HasEnded :
        (path : List Str) (s : Str)
        → length s + length s ≤ fuel
        → HasEnded (length s) (parse_value parse_literal again path s)
    unfolding parse_value
    value-HasEnded path [] enough' = omega arith
    value-HasEnded path (c ∷ s) enough' =
        let shorter = length-skip s in
        elim (Bool-cases (c == 123)) [
          | inl e ↦ rw e (
              HasEnded-le (length s) (suc (length s)) _
                (object-HasEnded path (skip_whitespace s) (length s) shorter (omega arith))
                (omega arith))
          | inr e ↦ elim (Bool-cases (c == 91)) [
            | inl e' ↦
                rw (e, e')
                  (HasEnded-le (length s) (suc (length s)) _
                    (array-HasEnded path (skip_whitespace s) (length s) shorter (omega arith))
                    (omega arith))
            | inr e' ↦ elim (Bool-cases (c == 34)) [
              | inl e'' ↦
                  rw (e, e', e'')
                    (string-HasEnded (suc (length s)) s _ (λ key rest le. omega arith))
              | inr e'' ↦ rw (e, e', e'') (length-primitive (c ∷ s))
            ]
          ]
        ]

    step-HasEnded :
        (task : Task) (s : Str)
        → need task (length s) ≤ suc fuel
        → HasEnded (length s) (step parse_literal again task s)
    unfolding step
    step-HasEnded (value path) s enough' =
        let shorter = length-skip s in
        HasEnded-le (length (skip_whitespace s)) (length s) _
          (value-HasEnded path (skip_whitespace s) (omega arith)) shorter
    step-HasEnded (elements path) s enough' = elements-HasEnded path s (omega arith)
    step-HasEnded (members path seen) s enough' = members-HasEnded path seen s (omega arith)

  scan-HasEnded :
      (fuel : ℕ) (task : Task) (s : Str)
      → need task (length s) ≤ fuel
      → HasEnded (length s) (scan parse_literal fuel task s)
  unfolding scan
  scan-HasEnded zero (value path) s enough' = absurd (omega arith)
  scan-HasEnded zero (elements path) s enough' = absurd (omega arith)
  scan-HasEnded zero (members path seen) s enough' = absurd (omega arith)
  scan-HasEnded (suc fuel) task s enough' =
      step-HasEnded (scan parse_literal fuel) fuel (λ t r e. scan-HasEnded fuel t r e) task s
        enough'

  ended-ne : (n : ℕ) (r : Scan) → HasEnded n r → r ≢ out_of_fuel
  ended-ne n thrown h e = cc
  ended-ne n (scanned rest duplicates) h e = cc
  ended-ne n out_of_fuel h e = h

  -- The fuel that the search for duplicate members gives its scanners is enough for every text,
  -- whether it is JSON or not: the scan of the text ends or throws.
  pub scan-enough :
      (path : List Str) (json : Str)
      → scan parse_literal (enough parse_literal json) (value path) json ≢ out_of_fuel
  scan-enough path json =
      ended-ne (length json) _
        (scan-HasEnded (enough parse_literal json) (value path) json (omega arith))
