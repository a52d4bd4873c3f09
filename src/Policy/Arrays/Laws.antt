-- ===== src/Policy/Arrays/Laws.antt =====
-- What the array helpers mean for membership up to `deepEqual`.
use oidfed.Common.{
  ◌≡◌, refl, ap, sym, ◌∙◌, Bool, true, ◌&&◌, List, [], ◌∷◌, ◌++◌, any, In, All, ◌⊎◌, inl, inr,
  arith, Bool-cases, any_intro, any-witness, filter-filter, filter_congr, all_at, all_intro,
  In-filter, filter_intro, In-append, append_left, append_right, eq_of_imp, and_true, and_intro,
}
use oidfed.Json.{Json, deep_equal, IsJson}
use oidfed.Json.Equality.{deep_equal_refl, deep_equal_sym, deep_equal_trans}
use oidfed.Policy.Arrays.{
  contains_element, is_subset, add_new, union_from, array_union, array_intersection,
}

-- Some element of the array equals `x`, seen from `x`.
abbrev pub member : Json → List Json → Bool
member x xs = any (λ s. deep_equal x s) xs

pub All_at : {x : Json} (P : Json → Type 0) (xs : List Json) → All P xs → In x xs → P x
All_at P [] h m = absurd m
All_at P (y ∷ ys) (p, h) (inl e) = rw e p
All_at P (y ∷ ys) (p, h) (inr m) = All_at P ys h m

pub All-intro : (P : Json → Type 0) (xs : List Json) → ((x : Json) → In x xs → P x) → All P xs
All-intro P [] h = tt
All-intro P (y ∷ ys) h = (h y (inl refl), All-intro P ys (λ x m. h x (inr m)))

pub is_subset_at :
    (xs ys : List Json) (x : Json) → is_subset xs ys ≡ true → In x xs → member x ys ≡ true
unfolding is_subset
is_subset_at xs ys x h m = all_at (λ item. member item ys) x xs h m

pub is_subset_intro :
    (xs ys : List Json) → ((x : Json) → In x xs → member x ys ≡ true) → is_subset xs ys ≡ true
unfolding is_subset
is_subset_intro xs ys h = all_intro (λ item. member item ys) xs h

pub member_intro :
    (x y : Json) (ys : List Json) → In y ys → deep_equal x y ≡ true → member x ys ≡ true
member_intro x y ys m h = any_intro (λ s. deep_equal x s) y ys m h

pub member_trans :
    (x y : Json) (ys : List Json) → deep_equal x y ≡ true → member y ys ≡ true → member x ys ≡ true
member_trans x y ys h k =
    let (z, m, same) = any-witness (λ s. deep_equal y s) ys k in
    member_intro x z ys m (deep_equal_trans x y z h same)

pub is_subset_refl : (xs : List Json) → All IsJson xs → is_subset xs xs ≡ true
is_subset_refl xs h =
    is_subset_intro xs xs λ x m. member_intro x x xs m (deep_equal_refl x (All_at IsJson xs h m))

pub is_subset_trans :
    (xs ys zs : List Json)
    → is_subset xs ys ≡ true
    → is_subset ys zs ≡ true
    → is_subset xs zs ≡ true
is_subset_trans xs ys zs h k = is_subset_intro xs zs λ x m.
    let (y, n, same) = any-witness (λ s. deep_equal x s) ys (is_subset_at xs ys x h m) in
    member_trans x y zs same (is_subset_at ys zs y k n)

-- An array helper that looks from the other side agrees with `member`.
pub contains_element-eq-member :
    (xs : List Json) (x : Json) → All IsJson xs → IsJson x → contains_element xs x ≡ member x xs
unfolding contains_element
contains_element-eq-member [] x h p = refl
contains_element-eq-member (y ∷ ys) x (q, h) p = rw (
  eq_of_imp (deep_equal y x) (deep_equal x y) (deep_equal_sym y x q p) (deep_equal_sym x y p q),
  contains_element-eq-member ys x h p,
)

-- Intersection

pub member-array_intersection :
    (x : Json) (a b : List Json)
    → IsJson x
    → All IsJson a
    → member x (array_intersection a b) ≡ (member x a && member x b)
unfolding array_intersection
member-array_intersection x a b p h = eq_of_imp _ _ to from
  where
    to : member x (array_intersection a b) ≡ true → (member x a && member x b) ≡ true
    to k =
        let (r, m, same) = any-witness (λ s. deep_equal x s) (array_intersection a b) k in
        let (n, both) = In-filter (λ item. member item b) r a m in
        and_intro (member_intro x r a n same) (member_trans x r b same both)

    from : (member x a && member x b) ≡ true → member x (array_intersection a b) ≡ true
    from k =
        let (in_a, in_b) = and_true k in
        let (r, m, same) = any-witness (λ s. deep_equal x s) a in_a in
        let back = deep_equal_sym x r p (All_at IsJson a h m) same in
        member_intro x r (array_intersection a b)
          (filter_intro (λ item. member item b) r a m (member_trans r x b back in_b)) same

-- An array is within an intersection exactly if it is within both.
pub is_subset-array_intersection :
    (p a b : List Json)
    → All IsJson p
    → All IsJson a
    → is_subset p (array_intersection a b) ≡ (is_subset p a && is_subset p b)
unfolding is_subset
is_subset-array_intersection [] a b hp ha = refl
is_subset-array_intersection (x ∷ p) a b (hx, hp) ha =
    rw (member-array_intersection x a b hx ha)
      (ground (arith, is_subset-array_intersection p a b hp ha))

-- Two intersections after one another are the intersection with the common part.
pub array_intersection_assoc :
    (p a b : List Json)
    → All IsJson p
    → All IsJson a
    → array_intersection p (array_intersection a b) ≡ array_intersection (array_intersection p a) b
unfolding array_intersection
array_intersection_assoc p a b hp ha =
    filter_congr (λ x. member x (array_intersection a b)) (λ x. member x a && member x b) p
      (λ x m. member-array_intersection x a b (All_at IsJson p hp m) ha)
    ∙ sym (filter-filter (λ x. member x a) (λ x. member x b) p)

pub array_intersection-IsJson :
    (a b : List Json) → All IsJson a → All IsJson (array_intersection a b)
unfolding array_intersection
array_intersection-IsJson a b h =
    All-intro IsJson (array_intersection a b)
      λ x m. All_at IsJson a h (In-filter (λ item. member item b) x a m).0

-- Union

add_new-IsJson :
    (result : List Json) (item : Json)
    → All IsJson result
    → IsJson item
    → All IsJson (add_new result item)
add_new-IsJson result item h p = elim (Bool-cases (any (λ r. deep_equal r item) result)) [
  | inl old ↦ rw old h
  | inr new ↦ rw new (
      All-intro IsJson (result ++ item ∷ []) λ x m. elim (In-append x result (item ∷ []) m) [
        | inl k ↦ All_at IsJson result h k
        | inr k ↦ All_at IsJson (item ∷ []) (p, tt) k
      ])
]

pub array_union-IsJson :
    (a b : List Json) → All IsJson a → All IsJson b → All IsJson (array_union a b)
unfolding array_union
array_union-IsJson a [] h k = h
array_union-IsJson a (item ∷ b) h (p, k) =
    array_union-IsJson (add_new a item) b (add_new-IsJson a item h p) k

-- Whatever was there stays there.
add_new_old : (x item : Json) (result : List Json) → In x result → In x (add_new result item)
add_new_old x item result m = elim (Bool-cases (any (λ r. deep_equal r item) result)) [
  | inl old ↦ rw old m
  | inr new ↦ rw new (append_left x result (item ∷ []) m)
]

pub array_union_left : (x : Json) (a b : List Json) → In x a → In x (array_union a b)
unfolding array_union
array_union_left x a [] m = m
array_union_left x a (item ∷ b) m = array_union_left x (add_new a item) b (add_new_old x item a m)

-- An item that was added equals something that is there.
add_new_added :
    (item : Json) (result : List Json)
    → All IsJson result
    → IsJson item
    → (r : Json) × In r (add_new result item) × (deep_equal item r ≡ true)
add_new_added item result h p = elim (Bool-cases (any (λ r. deep_equal r item) result)) [
  | inl old ↦
      let (r, m, same) = any-witness (λ r. deep_equal r item) result old in
      (r, rw old m, deep_equal_sym r item (All_at IsJson result h m) p same)
  | inr new ↦
      (item, rw new (append_right item result (item ∷ []) (inl refl)), deep_equal_refl item p)
]

pub member-array_union_right :
    (x : Json) (a b : List Json)
    → All IsJson a
    → All IsJson b
    → In x b
    → member x (array_union a b) ≡ true
unfolding array_union
member-array_union_right x a [] h k m = absurd m
member-array_union_right x a (item ∷ b) h (p, k) (inl e) =
    let (r, n, same) = add_new_added item a h p in
    rw e (
      member_intro item r (array_union (add_new a item) b) (array_union_left r (add_new a item) b n)
        same)
member-array_union_right x a (item ∷ b) h (p, k) (inr m) =
    member-array_union_right x (add_new a item) b (add_new-IsJson a item h p) k m

add_new_from :
    (x item : Json) (result : List Json) → In x (add_new result item) → In x result ⊎ (x ≡ item)
add_new_from x item result m = elim (Bool-cases (any (λ r. deep_equal r item) result)) [
  | inl old ↦ inl (rw old at m)
  | inr new ↦ elim (In-append x result (item ∷ []) (rw new at m)) [
    | inl k ↦ inl k
    | inr (inl e) ↦ inr e
    | inr (inr k) ↦ absurd k
  ]
]

-- A union has no elements but those of its parts.
pub array_union_from : (x : Json) (a b : List Json) → In x (array_union a b) → In x a ⊎ In x b
unfolding array_union
array_union_from x a [] m = inl m
array_union_from x a (item ∷ b) m = elim (array_union_from x (add_new a item) b m) [
  | inl k ↦ elim (add_new_from x item a k) [ inl old ↦ inl old | inr e ↦ inr (inl e) ]
  | inr k ↦ inr (inr k)
]

-- A union is within an array exactly if both parts are.
pub is_subset-array_union :
    (a b p : List Json)
    → All IsJson a
    → All IsJson b
    → is_subset (array_union a b) p ≡ (is_subset a p && is_subset b p)
is_subset-array_union a b p ha hb = eq_of_imp _ _ to from
  where
    to : is_subset (array_union a b) p ≡ true → (is_subset a p && is_subset b p) ≡ true
    to h =
        and_intro
          (is_subset_intro a p
            λ x m. is_subset_at (array_union a b) p x h (array_union_left x a b m))
          (is_subset_intro b p λ x m.
            let (r, n, same) =
              any-witness (λ s. deep_equal x s) (array_union a b)
                (member-array_union_right x a b ha hb m) in
            member_trans x r p same (is_subset_at (array_union a b) p r h n))

    from : (is_subset a p && is_subset b p) ≡ true → is_subset (array_union a b) p ≡ true
    from h =
        let (h_a, h_b) = and_true h in
        is_subset_intro (array_union a b) p λ x m. elim (array_union_from x a b m) [
          | inl k ↦ is_subset_at a p x h_a k
          | inr k ↦ is_subset_at b p x h_b k
        ]

union_from-append :
    (a b : List Json) (item : Json) → union_from a (b ++ item ∷ []) ≡ add_new (union_from a b) item
unfolding union_from
union_from-append a [] item = refl
union_from-append a (x ∷ b) item = union_from-append (add_new a x) b item

-- Adding an item to the second part first, or to the union, is the same.
array_union-add_new :
    (a b : List Json) (item : Json)
    → All IsJson a
    → All IsJson b
    → array_union a (add_new b item) ≡ add_new (array_union a b) item
unfolding array_union
array_union-add_new a b item ha hb = elim (Bool-cases (any (λ r. deep_equal r item) b)) [
  | inl old ↦ rw (old, seen old)
  | inr new ↦ rw new (union_from-append a b item)
]
  where
    seen :
        any (λ r. deep_equal r item) b ≡ true → any (λ r. deep_equal r item) (union_from a b) ≡ true
    seen old =
        let (r, m, same) = any-witness (λ r. deep_equal r item) b old in
        let (u, n, twin) =
          any-witness (λ s. deep_equal r s) (array_union a b)
            (member-array_union_right r a b ha hb m) in
        let there = All_at IsJson (array_union a b) (array_union-IsJson a b ha hb) n in
        any_intro (λ r. deep_equal r item) u (array_union a b) n
          (deep_equal_trans u r item (deep_equal_sym r u (All_at IsJson b hb m) there twin) same)

-- Two unions after one another are the union with both parts together.
pub array_union_assoc :
    (p a b : List Json)
    → All IsJson p
    → All IsJson a
    → All IsJson b
    → array_union p (array_union a b) ≡ array_union (array_union p a) b
unfolding array_union
array_union_assoc p a [] hp ha hb = refl
array_union_assoc p a (item ∷ b) hp ha (hi, hb) =
    array_union_assoc p (add_new a item) b hp (add_new-IsJson a item ha hi) hb
    ∙ ap (λ (r : List Json). union_from r b) (array_union-add_new p a item hp ha)
