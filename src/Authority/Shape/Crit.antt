-- ===== src/Authority/Shape/Crit.antt =====
-- Which arrays of critical names are accepted.
use oidfed.Common.{
  Str, js, Dict, get, in_object, str_eq, str_eq_iff, str_eq_refl, any, any_intro, any-witness, In,
  inl, inr, ◌⊎◌, ◌≡◌, ◌≢◌, ◌↔◌, refl, ap, ◌∙◌, true, false, Bool-cases, Option, none, some, List,
  [], ◌∷◌, ◌++◌, map, ok, err,
}
use oidfed.Json.{Json, null, bool, num, str, arr, obj, elems, items, Items, nil, cons}
use oidfed.Policy.Standard.Refines.{elems-items}
use oidfed.Authority.Shape.{
  Violation, duplicate, not_string, empty_array, refuse_any, crit_loop, assert_names, crit_name,
  assert_crit_shape, standard_entity_statement_claims,
}

module _ (check : Str → List Violation) where
  -- The names are strings, new, and have nothing against them.
  AcceptedNames : List Json → List Str → Type 0
  AcceptedNames [] seen = Unit
  AcceptedNames (str name ∷ crit) seen =
      (any (str_eq name) seen ≡ false) × (check name ≡ []) × AcceptedNames crit (name ∷ seen)
  AcceptedNames (_ ∷ crit) seen = ⊥

append_nil : (vs ws : List Violation) → vs ++ ws ≡ [] → (vs ≡ []) × (ws ≡ [])
append_nil [] ws h = (refl, h)
append_nil (v ∷ vs) ws h = cc

module _ (check : Str → List Violation) where
  crit_loop_keeps :
      (crit : List Json) (seen : List Str) (vs : List Violation)
      → crit_loop check crit seen vs ≡ []
      → vs ≡ []
  unfolding crit_loop
  crit_loop_keeps [] seen vs h = h
  crit_loop_keeps (str name ∷ crit) seen vs h = elim (Bool-cases (any (str_eq name) seen)) [
    | inl old ↦ (append_nil vs _ (crit_loop_keeps crit seen _ (rw old at h))).0
    | inr fresh ↦ (append_nil vs _ (crit_loop_keeps crit (name ∷ seen) _ (rw fresh at h))).0
  ]
  crit_loop_keeps (null ∷ crit) seen vs h = (append_nil vs _ (crit_loop_keeps crit seen _ h)).0
  crit_loop_keeps (bool b ∷ crit) seen vs h = (append_nil vs _ (crit_loop_keeps crit seen _ h)).0
  crit_loop_keeps (num n ∷ crit) seen vs h = (append_nil vs _ (crit_loop_keeps crit seen _ h)).0
  crit_loop_keeps (arr xs ∷ crit) seen vs h = (append_nil vs _ (crit_loop_keeps crit seen _ h)).0
  crit_loop_keeps (obj fs ∷ crit) seen vs h = (append_nil vs _ (crit_loop_keeps crit seen _ h)).0

  -- A violation that is recorded is not lost.
  crit_loop_fails :
      (crit : List Json) (seen : List Str) (v : Violation)
      → crit_loop check crit seen (v ∷ []) ≡ []
      → ⊥
  crit_loop_fails crit seen v h = cc (crit_loop_keeps crit seen (v ∷ []) h)

  crit_loop_accepts :
      (crit : List Json) (seen : List Str)
      → crit_loop check crit seen [] ≡ []
      → AcceptedNames check crit seen
  unfolding crit_loop AcceptedNames
  crit_loop_accepts [] seen h = tt
  crit_loop_accepts (str name ∷ crit) seen h = elim (Bool-cases (any (str_eq name) seen)) [
    | inl old ↦ absurd (crit_loop_fails crit seen (duplicate name) (rw old at h))
    | inr fresh ↦
        let h' : crit_loop check crit (name ∷ seen) (check name) ≡ [] = rw fresh at h in
        let clear = crit_loop_keeps crit (name ∷ seen) (check name) h' in
        (fresh, clear, crit_loop_accepts crit (name ∷ seen) (rw clear at h'))
  ]
  crit_loop_accepts (null ∷ crit) seen h = crit_loop_fails crit seen not_string h
  crit_loop_accepts (bool b ∷ crit) seen h = crit_loop_fails crit seen not_string h
  crit_loop_accepts (num n ∷ crit) seen h = crit_loop_fails crit seen not_string h
  crit_loop_accepts (arr xs ∷ crit) seen h = crit_loop_fails crit seen not_string h
  crit_loop_accepts (obj fs ∷ crit) seen h = crit_loop_fails crit seen not_string h

  crit_loop_passes :
      (crit : List Json) (seen : List Str)
      → AcceptedNames check crit seen
      → crit_loop check crit seen [] ≡ []
  unfolding crit_loop AcceptedNames
  crit_loop_passes [] seen h = refl
  crit_loop_passes (str name ∷ crit) seen (fresh, clear, rest) =
      rw (fresh, clear) (crit_loop_passes crit (name ∷ seen) rest)
  crit_loop_passes (null ∷ crit) seen h = absurd h
  crit_loop_passes (bool b ∷ crit) seen h = absurd h
  crit_loop_passes (num n ∷ crit) seen h = absurd h
  crit_loop_passes (arr xs ∷ crit) seen h = absurd h
  crit_loop_passes (obj fs ∷ crit) seen h = absurd h

-- No name stands twice.
abbrev pub NoRepeat : List Str → Type 0
NoRepeat [] = Unit
NoRepeat (n ∷ ns) = (In n ns → ⊥) × NoRepeat ns

-- A critical name is no claim of the specification, and is in the payload: a claim of it, or a name
-- that every object inherits.
abbrev pub IsCriticalName : Dict Json → Str → Type 0
IsCriticalName payload name =
    (In name standard_entity_statement_claims → ⊥) × (in_object name payload ≡ true)

any_str_eq : (name : Str) (ns : List Str) → any (str_eq name) ns ≡ true → In name ns
any_str_eq name ns h =
    let (m, k, e) = any-witness (str_eq name) ns h in rw ((str_eq_iff name m).0 e) k

crit_name-in_object :
    (payload : Dict Json) (name : Str) → crit_name payload name ≡ [] → in_object name payload ≡ true
unfolding crit_name
crit_name-in_object payload name h =
    elim (Bool-cases (any (str_eq name) standard_entity_statement_claims)) [
      | inl known ↦ absurd (cc (rw known at h))
      | inr unknown ↦ elim (Bool-cases (in_object name payload)) [
        | inl there ↦ there
        | inr gone ↦ absurd (cc (rw (unknown, gone) at h))
      ]
    ]

crit_name_iff :
    (payload : Dict Json) (name : Str) → (crit_name payload name ≡ []) ↔ IsCriticalName payload name
unfolding crit_name
crit_name_iff payload name = (
  λ h. (
    λ m. cc (
        rw (any_intro (str_eq name) name standard_entity_statement_claims m (str_eq_refl name)) at
          h),
    crit_name-in_object payload name h,
  ),
  λ (extension, there). elim (Bool-cases (any (str_eq name) standard_entity_statement_claims)) [
    | inl known ↦ absurd (extension (any_str_eq name standard_entity_statement_claims known))
    | inr unknown ↦ rw (unknown, there) refl
  ],
)

-- The names of an accepted array are new among those seen, and clear.
record AreAccepted (check : Str → List Violation) (seen names : List Str) : Type 0 where
  clear : (n : Str) → In n names → (check n ≡ []) × (In n seen → ⊥)
  apart : NoRepeat names

accepted_cons :
    (check : Str → List Violation) (name : Str) (seen names : List Str)
    → any (str_eq name) seen ≡ false
    → check name ≡ []
    → AreAccepted check (name ∷ seen) names
    → AreAccepted check seen (name ∷ names)
accepted_cons check name seen names fresh good h = record {
  clear = λ n m. elim m [
    | inl e ↦ rw e (good, λ k. cc (fresh, any_intro (str_eq name) name seen k (str_eq_refl name)))
    | inr k ↦ let (c, f) = h.clear n k in (c, λ s. f (inr s))
  ];
  apart = (λ m. (h.clear name m).1 (inl refl), h.apart);
}

accepted_names :
    (check : Str → List Violation) (crit : List Json) (seen : List Str)
    → AcceptedNames check crit seen
    → (names : List Str) × (crit ≡ map str names) × AreAccepted check seen names
unfolding AcceptedNames
accepted_names check [] seen h = ([], refl, record { clear = λ n m. absurd m; apart = tt })
accepted_names check (str name ∷ crit) seen (fresh, good, rest) =
    let (names, e, a) = accepted_names check crit (name ∷ seen) rest in
    (name ∷ names, ap (λ tail. str name ∷ tail) e, accepted_cons check name seen names fresh good a)
accepted_names check (null ∷ crit) seen h = absurd h
accepted_names check (bool b ∷ crit) seen h = absurd h
accepted_names check (num n ∷ crit) seen h = absurd h
accepted_names check (arr xs ∷ crit) seen h = absurd h
accepted_names check (obj fs ∷ crit) seen h = absurd h

names-Accepted :
    (check : Str → List Violation) (names seen : List Str)
    → AreAccepted check seen names
    → AcceptedNames check (map str names) seen
unfolding AcceptedNames
names-Accepted check [] seen a = tt
names-Accepted check (n ∷ names) seen a = (
  elim (Bool-cases (any (str_eq n) seen)) [
    | inr fresh ↦ fresh
    | inl old ↦ absurd ((a.clear n (inl refl)).1 (any_str_eq n seen old))
  ],
  (a.clear n (inl refl)).0,
  names-Accepted check names (n ∷ seen) (record {
    clear = λ m k. (
      (a.clear m (inr k)).0,
      λ s. elim s [ inl e ↦ a.apart.0 (rw (← e) k) | inr t ↦ (a.clear m (inr k)).1 t ],
    );
    apart = a.apart.1;
  }),
)

-- The `crit` claim: at least one name, each a string and an extension claim that is there, none twice.
pub record IsCrit (payload : Dict Json) (names : List Str) : Type 0 where
  pub not_empty : names ≢ []
  pub no_repeat : NoRepeat names
  pub critical : (name : Str) → In name names → IsCriticalName payload name

check_names_ok :
    (payload : Dict Json) (crit : List Json)
    → crit_loop (crit_name payload) crit [] [] ≡ []
    → crit ≢ []
    → (names : List Str) × (crit ≡ map str names) × IsCrit payload names
check_names_ok payload crit h some_name =
    let (names, e, a) =
      accepted_names (crit_name payload) crit []
        (crit_loop_accepts (crit_name payload) crit [] h) in
    (
      names,
      e,
      record {
        not_empty = λ empty. some_name (e ∙ ap (map str) empty);
        no_repeat = a.apart;
        critical = λ n m. (crit_name_iff payload n).0 (a.clear n m).0;
      },
    )

items-elems : (xs : Items) → xs ≡ items (elems xs)
unfolding items elems
items-elems nil = refl
items-elems (cons v vs) = ap (cons v) (items-elems vs)

refuse_any_ok : (vs : List Violation) → refuse_any vs ≡ ok tt → vs ≡ []
refuse_any_ok [] h = refl
refuse_any_ok (v ∷ vs) h = cc

assert_elems :
    (payload : Dict Json) (xs : Items) (vs : List Json)
    → elems xs ≡ vs
    → (elim vs [
      | [] ↦ err (empty_array ∷ [])
      | v ∷ crit ↦ refuse_any (crit_loop (crit_name payload) (v ∷ crit) [] [])
    ])
      ≡ ok tt
    → (some (arr xs) ≡ none)
      ⊎ ((vs : List Json) × (some (arr xs) ≡ some (arr (items vs)))
          × (vs ≢ [])
          × (crit_loop (crit_name payload) vs [] [] ≡ []))
assert_elems payload xs [] e h = cc
assert_elems payload xs (v ∷ vs) e h =
    let same : xs ≡ items (v ∷ vs) = items-elems xs ∙ ap items e in
    inr (v ∷ vs, ap (λ x. some (arr x)) same, (λ n. cc n), refuse_any_ok _ h)

assert_complete :
    (payload : Dict Json) (names : List Str)
    → IsCrit payload names
    → assert_names (crit_name payload) (some (arr (items (map str names)))) ≡ ok tt
unfolding assert_names elems items
assert_complete payload [] c = absurd (c.not_empty refl)
assert_complete payload (n ∷ names) c =
    let a : AreAccepted (crit_name payload) [] (n ∷ names) = record {
      clear = λ m k. ((crit_name_iff payload m).1 (c.critical m k), λ s. absurd s);
      apart = c.no_repeat;
    } in
    rw
      (
        elems-items,
        crit_loop_passes (crit_name payload) (str n ∷ map str names) []
            (names-Accepted (crit_name payload) (n ∷ names) [] a),
      )
      refl

assert_names_sound :
    (payload : Dict Json) (claim : Option Json)
    → assert_names (crit_name payload) claim ≡ ok tt
    → (claim ≡ none)
      ⊎ ((vs : List Json) × (claim ≡ some (arr (items vs)))
          × (vs ≢ [])
          × (crit_loop (crit_name payload) vs [] [] ≡ []))
unfolding assert_names
assert_names_sound payload none h = inl refl
assert_names_sound payload (some (arr xs)) h = assert_elems payload xs (elems xs) refl h
assert_names_sound payload (some null) h = cc
assert_names_sound payload (some (bool b)) h = cc
assert_names_sound payload (some (num n)) h = cc
assert_names_sound payload (some (str s)) h = cc
assert_names_sound payload (some (obj fs)) h = cc

-- A `crit` claim is accepted exactly if it is absent or an array of at least one name, in which each
-- name is a string that stands once, is no claim of the specification, and is a claim of the payload
-- or a name that every object inherits (which `in` finds too).
pub assert_crit_shape_iff :
    (payload : Dict Json)
    → (assert_crit_shape payload ≡ ok tt) ↔ (
        (get (js "crit") payload ≡ none)
        ⊎ ((names : List Str) × (get (js "crit") payload ≡ some (arr (items (map str names))))
            × IsCrit payload names))
unfolding assert_crit_shape assert_names
assert_crit_shape_iff payload = (
  λ h. elim (assert_names_sound payload (get (js "crit") payload) h) [
    | inl absent ↦ inl absent
    | inr (vs, at, some_name, clear) ↦
        let (names, e, c) = check_names_ok payload vs clear some_name in inr (names, rw (← e) at, c)
  ],
  λ h. elim h [
    | inl absent ↦ rw (absent, assert_names) refl
    | inr (names, at, c) ↦ rw (at, assert_names) (assert_complete payload names c)
  ],
)
