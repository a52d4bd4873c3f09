-- ===== src/Json/Equality.antt =====
-- `deepEqual` is an equivalence on JSON values.
use oidfed.Common.{
  ℕ, ◌==◌, ◌&&◌, Str, Dict, get, has, covers, get-In, In-get, In, length, ◌≡◌, refl, sym, ap, ◌∙◌,
  Bool, true, false, ◌⊎◌, inl, inr, none, some, str_eq_refl, str_eq_iff, Distinct, arith,
  Option-cases, and_intro, and_true, ==_iff,
}
use oidfed.Json.{
  Json, null, bool, num, str, arr, obj, Items, nil, cons, Fields, end, field, elems, entries,
  bool_eq, deep_equal, deep_items, deep_fields, IsJson, AreItems, AreFields,
}

key : {j k : Str} {u v : Json} → ◌≡◌ {A = Str × Json} (k, v) (j, u) → k ≡ j
key e = ap (λ (p : Str × Json). p.0) e

value : {j k : Str} {u v : Json} → ◌≡◌ {A = Str × Json} (k, v) (j, u) → v ≡ u
value e = ap (λ (p : Str × Json). p.1) e

bool_eq_refl : (b : Bool) → bool_eq b b ≡ true
unfolding bool_eq
bool_eq_refl true = refl
bool_eq_refl false = refl

bool_eq→eq : (a b : Bool) → bool_eq a b ≡ true → a ≡ b
unfolding bool_eq
bool_eq→eq a b h = ground arith

-- What `deep_fields` tests: each entry has its equal in the other object.
deep_fields_at :
    (fs : Fields) (d : Dict Json) (k : Str) (v : Json)
    → deep_fields fs d ≡ true
    → In (k, v) (entries fs)
    → (w : Json) × (get k d ≡ some w) × (deep_equal v w ≡ true)
unfolding deep_equal entries
deep_fields_at end d k v h m = absurd m
deep_fields_at (field j u fs) d k v h (inl e) = elim (Option-cases (get j d)) [
  | inl missing ↦ absurd (ground (arith, missing))
  | inr (w, found) ↦ (w, ap (λ a. get a d) (key e) ∙ found, rw (value e) (ground (arith, found)))
]
deep_fields_at (field j u fs) d k v h (inr m) = deep_fields_at fs d k v (ground arith) m

-- A value's entry, with the value's own property.
abbrev AtEntries : (Json → Type 0) → Dict Json → Type 0
AtEntries P d = (k : Str) (v : Json) → In (k, v) d → P v

deep_fields_intro :
    (fs : Fields) (d : Dict Json)
    → ((k : Str) (v : Json)
        → In (k, v) (entries fs)
        → (w : Json) × (get k d ≡ some w) × (deep_equal v w ≡ true))
    → deep_fields fs d ≡ true
unfolding deep_equal entries
deep_fields_intro end d h = refl
deep_fields_intro (field k v fs) d h =
    let (w, found, same) = h k v (inl refl) in
    rw (found, same) (deep_fields_intro fs d (λ j u m. h j u (inr m)))

AreFields-at : (fs : Fields) (k : Str) (v : Json) → AreFields fs → In (k, v) (entries fs) → IsJson v
unfolding IsJson entries
AreFields-at end k v h m = absurd m
AreFields-at (field j u fs) k v (p, h) (inl e) = rw (value e) p
AreFields-at (field j u fs) k v (p, h) (inr m) = AreFields-at fs k v h m

mutual
  unfolding deep_equal bool_eq IsJson entries elems

  equal_refl : (v : Json) → IsJson v → deep_equal v v ≡ true
  equal_refl null h = refl
  equal_refl (bool b) h = bool_eq_refl b
  equal_refl (num n) h = ground arith
  equal_refl (str s) h = str_eq_refl s
  equal_refl (arr xs) h = ground (arith, items_refl xs h)
  equal_refl (obj fs) (u, h) = and_intro (ground arith) (
      deep_fields_intro fs (entries fs)
        (λ k v m. (v, In-get k v (entries fs) u m, fields_refl fs h k v m)))

  items_refl : (xs : Items) → AreItems xs → deep_items xs xs ≡ true
  items_refl nil h = refl
  items_refl (cons x xs) (p, h) = and_intro (equal_refl x p) (items_refl xs h)

  fields_refl : (fs : Fields) → AreFields fs → AtEntries (λ v. deep_equal v v ≡ true) (entries fs)
  fields_refl end h k v m = absurd m
  fields_refl (field j u fs) (p, h) k v (inl e) = rw (value e) (equal_refl u p)
  fields_refl (field j u fs) (p, h) k v (inr m) = fields_refl fs h k v m

-- Each entry of `fs` is found in `gs`, and `fs` has as many entries: then each entry of `gs` is
-- found in `fs`.
entries_sym :
    (fs gs : Fields)
    → Distinct (entries fs)
    → Distinct (entries gs)
    → length (entries fs) ≡ length (entries gs)
    → AtEntries
        (λ v. (w : Json) → IsJson w → deep_equal v w ≡ true → deep_equal w v ≡ true)
        (entries fs)
    → AreFields gs
    → deep_fields fs (entries gs) ≡ true
    → deep_fields gs (entries fs) ≡ true
entries_sym fs gs u u' n ih wf h = deep_fields_intro gs (entries fs) λ k w m.
    let seen =
      covers (entries fs) (entries gs) u (omega arith) (λ j here. found j here) k
        (rw (In-get k w (entries gs) u' m) refl) in
    match_up k w m (Option-cases (get k (entries fs))) seen
  where
    found : (j : Str) → has j (entries fs) ≡ true → has j (entries gs) ≡ true
    found j here = elim (Option-cases (get j (entries fs))) [
      | inl missing ↦ ground arith
      | inr (v, there) ↦
          let (w, at, same) = deep_fields_at fs (entries gs) j v h (get-In j (entries fs) there) in
          rw at
    ]

    match_up :
        (k : Str) (w : Json)
        → In (k, w) (entries gs)
        → (get k (entries fs) ≡ none) ⊎ ((v : Json) × (get k (entries fs) ≡ some v))
        → has k (entries fs) ≡ true
        → (v : Json) × (get k (entries fs) ≡ some v) × (deep_equal w v ≡ true)
    match_up k w m (inl missing) seen = ground arith
    match_up k w m (inr (v, there)) seen =
        let member = get-In k (entries fs) there in
        let (w', at, same) = deep_fields_at fs (entries gs) k v h member in
        let agree : w' ≡ w = cc (at, In-get k w (entries gs) u' m) in
        (v, there, ih k v member w (AreFields-at gs k w wf m) (rw agree at same))

mutual
  unfolding deep_equal bool_eq IsJson entries elems

  equal_sym : (v w : Json) → IsJson v → IsJson w → deep_equal v w ≡ true → deep_equal w v ≡ true
  equal_sym null null p q h = refl
  equal_sym (bool a) (bool b) p q h = rw (bool_eq→eq a b h) (bool_eq_refl b)
  equal_sym (num a) (num b) p q h = ground arith
  equal_sym (str a) (str b) p q h = ground (arith, str_eq_iff a b, str_eq_iff b a)
  equal_sym (arr xs) (arr ys) p q h =
      let (n, each) = and_true h in
      let size = (==_iff _ _).0 n in
      and_intro ((==_iff _ _).1 (sym size)) (items_sym xs ys p q size each)
  equal_sym (obj fs) (obj gs) (u, p) (u', q) h =
      let (n, each) = and_true h in
      let size = (==_iff _ _).0 n in
      and_intro ((==_iff _ _).1 (sym size)) (entries_sym fs gs u u' size (fields_sym fs p) q each)
  equal_sym _ _ p q h = ground arith

  items_sym :
      (xs ys : Items)
      → AreItems xs
      → AreItems ys
      → (length (elems xs) ≡ length (elems ys))
      → deep_items xs ys ≡ true
      → deep_items ys xs ≡ true
  items_sym nil nil p q n h = refl
  items_sym nil (cons y ys) p q n h = absurd (omega arith)
  items_sym (cons x xs) nil p q n h = ground arith
  items_sym (cons x xs) (cons y ys) (p, ps) (q, qs) n h =
      let (here, later) = and_true h in
      and_intro (equal_sym x y p q here) (items_sym xs ys ps qs (omega arith) later)

  fields_sym :
      (fs : Fields)
      → AreFields fs
      → AtEntries
          (λ v. (w : Json) → IsJson w → deep_equal v w ≡ true → deep_equal w v ≡ true)
          (entries fs)
  fields_sym end h k v m = absurd m
  fields_sym (field j u fs) (p, h) k v (inl e) = rw (value e) (λ w q same. equal_sym u w p q same)
  fields_sym (field j u fs) (p, h) k v (inr m) = fields_sym fs h k v m

no_items : (xs ys : Items) → length (elems xs) ≡ 0 → deep_items xs ys ≡ true
unfolding deep_equal elems
no_items nil ys n = refl
no_items (cons x xs) ys n = absurd (omega arith)

no_fields : (fs : Fields) (d : Dict Json) → length (entries fs) ≡ 0 → deep_fields fs d ≡ true
unfolding deep_equal entries
no_fields end d n = refl
no_fields (field k v fs) d n = absurd (omega arith)

empty_left : (l m : ℕ) → (l == 0 && m == 0) ≡ true → l ≡ 0
empty_left l m h = ground arith

same_empty : (l m n : ℕ) → (l == 0 && m == 0) ≡ true → (m == 0 && n == 0) ≡ true → (l == n) ≡ true
same_empty l m n h h' = ground arith

empty_before :
    (l m n : ℕ) (rest : Bool)
    → (l == m && rest) ≡ true
    → (m == 0 && n == 0) ≡ true
    → (l == 0 && n == 0) ≡ true
empty_before l m n rest h h' = ground arith

empty_behind :
    (l m n : ℕ) (rest : Bool)
    → (l == 0 && m == 0) ≡ true
    → (m == n && rest) ≡ true
    → (l == 0 && n == 0) ≡ true
empty_behind l m n rest h h' = ground arith

entries_trans :
    (fs gs hs : Fields)
    → AtEntries
        (λ v. (w x : Json) → deep_equal v w ≡ true → deep_equal w x ≡ true → deep_equal v x ≡ true)
        (entries fs)
    → deep_fields fs (entries gs) ≡ true
    → deep_fields gs (entries hs) ≡ true
    → deep_fields fs (entries hs) ≡ true
entries_trans fs gs hs ih h h' = deep_fields_intro fs (entries hs) λ k v m.
    let (w, at, same) = deep_fields_at fs (entries gs) k v h m in
    let (x, at', same') = deep_fields_at gs (entries hs) k w h' (get-In k (entries gs) at) in
    (x, at', ih k v m w x same same')

mutual
  unfolding deep_equal bool_eq entries elems

  equal_trans :
      (v w x : Json) → deep_equal v w ≡ true → deep_equal w x ≡ true → deep_equal v x ≡ true
  equal_trans null null x h h' = h'
  equal_trans (bool a) (bool b) (bool c) h h' = ground arith
  equal_trans (num a) (num b) (num c) h h' = ground arith
  equal_trans (str a) (str b) (str c) h h' =
      ground (arith, str_eq_iff a b, str_eq_iff b c, str_eq_iff a c)
  equal_trans (arr xs) (arr ys) (arr zs) h h' =
      let (n, each) = and_true h in
      let (n', each') = and_true h' in
      and_intro ((==_iff _ _).1 ((==_iff _ _).0 n ∙ (==_iff _ _).0 n'))
        (items_trans xs ys zs each each')
  equal_trans (obj fs) (obj gs) (obj hs) h h' =
      let (n, each) = and_true h in
      let (n', each') = and_true h' in
      and_intro ((==_iff _ _).1 ((==_iff _ _).0 n ∙ (==_iff _ _).0 n'))
        (entries_trans fs gs hs (fields_trans fs) each each')
  equal_trans (arr xs) (arr ys) (obj hs) h h' =
      empty_before (length (elems xs)) (length (elems ys)) (length (entries hs)) _ h h'
  equal_trans (arr xs) (obj gs) (arr zs) h h' =
      let x = length (elems xs) in
      let g = length (entries gs) in
      let z = length (elems zs) in
      and_intro (same_empty x g z h h') (no_items xs zs (empty_left x g h))
  equal_trans (arr xs) (obj gs) (obj hs) h h' =
      empty_behind (length (elems xs)) (length (entries gs)) (length (entries hs)) _ h h'
  equal_trans (obj fs) (arr ys) (arr zs) h h' =
      empty_behind (length (entries fs)) (length (elems ys)) (length (elems zs)) _ h h'
  equal_trans (obj fs) (arr ys) (obj hs) h h' =
      let f = length (entries fs) in
      let y = length (elems ys) in
      let g = length (entries hs) in
      and_intro (same_empty f y g h h') (no_fields fs (entries hs) (empty_left f y h))
  equal_trans (obj fs) (obj gs) (arr zs) h h' =
      empty_before (length (entries fs)) (length (entries gs)) (length (elems zs)) _ h h'
  equal_trans _ _ _ h h' = ground arith

  items_trans :
      (xs ys zs : Items)
      → deep_items xs ys ≡ true
      → deep_items ys zs ≡ true
      → deep_items xs zs ≡ true
  items_trans nil ys zs h h' = refl
  items_trans (cons x xs) nil zs h h' = ground arith
  items_trans (cons x xs) (cons y ys) nil h h' = ground arith
  items_trans (cons x xs) (cons y ys) (cons z zs) h h' =
      let (here, later) = and_true h in
      let (here', later') = and_true h' in
      and_intro (equal_trans x y z here here') (items_trans xs ys zs later later')

  fields_trans :
      (fs : Fields)
      → AtEntries
          (λ v.
            (w x : Json) → deep_equal v w ≡ true → deep_equal w x ≡ true → deep_equal v x ≡ true)
          (entries fs)
  fields_trans end k v m = absurd m
  fields_trans (field j u fs) k v (inl e) =
      rw (value e) (λ w x same same'. equal_trans u w x same same')
  fields_trans (field j u fs) k v (inr m) = fields_trans fs k v m

-- `deepEqual` of a JSON value and itself holds, if its objects have each key once.
pub deep_equal_refl : (v : Json) → IsJson v → deep_equal v v ≡ true
deep_equal_refl = equal_refl

-- For JSON values whose objects have each key once, `deepEqual(v, w)` implies `deepEqual(w, v)`,
-- although the code looks up the keys of its first argument only.
pub deep_equal_sym :
    (v w : Json) → IsJson v → IsJson w → deep_equal v w ≡ true → deep_equal w v ≡ true
deep_equal_sym = equal_sym

-- `deepEqual(v, w)` and `deepEqual(w, x)` imply `deepEqual(v, x)`.
pub deep_equal_trans :
    (v w x : Json) → deep_equal v w ≡ true → deep_equal w x ≡ true → deep_equal v x ≡ true
deep_equal_trans = equal_trans
