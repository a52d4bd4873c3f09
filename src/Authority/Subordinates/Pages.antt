-- ===== src/Authority/Subordinates/Pages.antt =====
-- The pages of the list of subordinates: a page and what its cursor leads to are the whole list.
use oidfed.Common.{
  ℕ, zero, suc, Str, Dict, get, str_eq, str_eq_iff, get_elem?, take, filter, In-filter,
  filter-filter, filter_congr, In, inl, inr, length, ltb, ◌≡◌, ◌≢◌, refl, ap, sym, ◌∙◌, Bool, true,
  false, not, Bool-cases, Option-cases, Option, none, some, List, [], ◌∷◌, ◌++◌, arith, Result, ok,
  err,
}
use oidfed.Authority.Order.{str_lt, str_lt_irrefl, str_lt_trans, not_lt_trans, sort}
use oidfed.Authority.Marks.{TrustMarkRecord, values}
use oidfed.Authority.Subordinates.Ascending.{AreApart, Ascends, filter-AreApart, sort-Ascends}
use oidfed.Authority.Subordinates.{
  SubordinateRecord, ListFilter, ListPageOptions, ListPage, SubordinateError, valid_at_required,
  marks_unsupported, has_wanted_type, is_wanted_kind, is_updated_within, filter_marked, is_marked,
  wants_marks, by_entity_id, from_cursor, page, listed, list,
}

module _ {D : Type 0} where
  filter-all :
      (p : SubordinateRecord D → Bool) (rs : List (SubordinateRecord D))
      → ((r : SubordinateRecord D) → In r rs → p r ≡ true)
      → filter p rs ≡ rs
  filter-all p [] h = refl
  filter-all p (r ∷ rs) h =
      rw (h r (inl refl)) (ap (λ t. r ∷ t) (filter-all p rs (λ s m. h s (inr m))))

  get_elem?-In :
      (rs : List (SubordinateRecord D)) (n : ℕ) (r : SubordinateRecord D)
      → get_elem? rs n ≡ some r
      → In r rs
  get_elem?-In [] n r h = cc
  get_elem?-In (s ∷ rs) zero r h = inl (cc h)
  get_elem?-In (s ∷ rs) (suc n) r h = inr (get_elem?-In rs n r h)

  behind :
      (r s next : SubordinateRecord D)
      → r ≡ next
      → str_lt r.entity_id s.entity_id ≡ true
      → not (str_lt s.entity_id next.entity_id) ≡ true
  behind r s next e h =
      let lt : str_lt next.entity_id s.entity_id ≡ true = rw (← e) h in
      ground (
        arith,
        lt,
        str_lt_trans next.entity_id s.entity_id next.entity_id,
        str_lt_irrefl next.entity_id,
      )

  -- Cutting an ascending list at a place, and cutting it at the identifier there.
  take-from_cursor :
      (rs : List (SubordinateRecord D)) (n : ℕ) (next : SubordinateRecord D)
      → Ascends rs
      → get_elem? rs n ≡ some next
      → rs ≡ take n rs ++ from_cursor (some next.entity_id) rs
  take-from_cursor [] n next a h = cc
  take-from_cursor (r ∷ rs) zero next a h =
      let e : r ≡ next = cc h in
      let self : str_lt r.entity_id next.entity_id ≡ false = rw e (str_lt_irrefl next.entity_id) in
      sym (
        filter-all (λ s. not (str_lt s.entity_id next.entity_id)) (r ∷ rs)
          (λ s m. elim m [ inl q ↦ rw q (rw self refl) | inr k ↦ behind r s next e (a.0 s k) ]))
  take-from_cursor (r ∷ rs) (suc n) next a h =
      rw (a.0 next (get_elem?-In rs n next h)) (ap (λ t. r ∷ t) (take-from_cursor rs n next a.1 h))

  filter-Ascends :
      (p : SubordinateRecord D → Bool) (rs : List (SubordinateRecord D))
      → Ascends rs
      → Ascends (filter p rs)
  filter-Ascends p [] h = tt
  filter-Ascends p (r ∷ rs) h = elim (Bool-cases (p r)) [
    | inl hit ↦ rw hit ((λ s m. h.0 s (In-filter p s rs m).0), filter-Ascends p rs h.1)
    | inr miss ↦ rw miss (filter-Ascends p rs h.1)
  ]

  from_cursor-Ascends :
      (cursor : Option Str) (rs : List (SubordinateRecord D))
      → Ascends rs
      → Ascends (from_cursor cursor rs)
  from_cursor-Ascends none rs h = h
  from_cursor-Ascends (some c) rs h = filter-Ascends (λ r. not (str_lt r.entity_id c)) rs h

  -- A later cursor makes an earlier one superfluous.
  from_cursor-from_cursor :
      (cursor : Option Str) (rs : List (SubordinateRecord D)) (next : SubordinateRecord D)
      → In next (from_cursor cursor rs)
      → from_cursor (some next.entity_id) (from_cursor cursor rs)
        ≡ from_cursor (some next.entity_id) rs
  from_cursor-from_cursor none rs next m = refl
  from_cursor-from_cursor (some c) rs next m =
      let (_, ge) = In-filter (λ r. not (str_lt r.entity_id c)) next rs m in
      filter-filter (λ r. not (str_lt r.entity_id c)) (λ r. not (str_lt r.entity_id next.entity_id))
        rs
      ∙ filter_congr _ _ rs (λ r _. ground (
        arith,
        ge,
        str_lt_trans r.entity_id c next.entity_id,
        not_lt_trans r.entity_id next.entity_id c,
      ))

  -- Every record is kept under its own identifier, once.
  abbrev pub AreKeyed : Dict (SubordinateRecord D) → Type 0
  AreKeyed [] = Unit
  AreKeyed ((k, r) ∷ records) = (get k records ≡ none) × (k ≡ r.entity_id) × AreKeyed records

  values-absent :
      (k : Str) (r : SubordinateRecord D) (records : Dict (SubordinateRecord D))
      → k ≡ r.entity_id
      → get k records ≡ none
      → AreKeyed records
      → (s : SubordinateRecord D) → In s (values records)
      → r.entity_id ≢ s.entity_id
  unfolding values get
  values-absent k r [] own fresh h s m same = absurd m
  values-absent k r ((j, t) ∷ records) own fresh h s m same = elim (Bool-cases (str_eq j k)) [
    | inl e ↦ cc (rw e at fresh)
    | inr ne ↦ elim m [
      | inl q ↦
          cc (ne, (str_eq_iff j k).1 (h.1 ∙ (sym (ap (λ x. x.entity_id) q) ∙ (sym same ∙ sym own))))
      | inr n ↦ values-absent k r records own (rw ne at fresh) h.2 s n same
    ]
  ]

  marked-AreApart :
      (marks : Option (Dict TrustMarkRecord)) (f : ListFilter) (rs ms : List (SubordinateRecord D))
      → AreApart rs
      → (at : Option ℕ)
      → (elim at [
        | none ↦ err valid_at_required
        | some t ↦ elim marks [
          | none ↦ err marks_unsupported
          | some d ↦ ok (filter (is_marked d f.trust_mark_types t) rs)
        ]
      ])
        ≡ ok ms
      → AreApart ms
  marked-AreApart marks f rs ms apart none h = cc
  marked-AreApart none f rs ms apart (some t) h = cc
  marked-AreApart (some d) f rs ms apart (some t) h =
      let e : filter (is_marked d f.trust_mark_types t) rs ≡ ms = cc h in
      rw (← e) (filter-AreApart (is_marked d f.trust_mark_types t) rs apart)

  filter_marked-AreApart :
      (marks : Option (Dict TrustMarkRecord)) (f : ListFilter) (rs ms : List (SubordinateRecord D))
      → AreApart rs
      → filter_marked marks f rs ≡ ok ms
      → AreApart ms
  unfolding filter_marked
  filter_marked-AreApart marks f rs ms apart h = elim (Bool-cases (wants_marks f)) [
    | inr free ↦ let h' : ok rs ≡ ok ms = rw free at h in let e : rs ≡ ms = cc h' in rw (← e) apart
    | inl wants ↦ marked-AreApart marks f rs ms apart f.valid_at (rw wants at h)
  ]

  filter_marked-Ascends :
      (f : ListFilter) (options : ListPageOptions) (marks : Option (Dict TrustMarkRecord))
      (kinds : List (SubordinateRecord D))
      (m : Result SubordinateError (List (SubordinateRecord D)))
      → filter_marked marks f kinds ≡ m
      → (rs : List (SubordinateRecord D)) → AreApart kinds
      → (elim m [
        | err e ↦ err e
        | ok marked ↦ ok (sort by_entity_id (filter (is_updated_within options) marked))
      ])
        ≡ ok rs
      → Ascends rs
  filter_marked-Ascends f options marks kinds (err e) eq rs apart h = cc
  filter_marked-Ascends f options marks kinds (ok ms) eq rs apart h =
      let e : sort by_entity_id (filter (is_updated_within options) ms) ≡ rs = cc h in
      rw (← e) (
        sort-Ascends (filter (is_updated_within options) ms) (
          filter-AreApart (is_updated_within options) ms
            (filter_marked-AreApart marks f kinds ms apart eq)))

  values-apart :
      (records : Dict (SubordinateRecord D)) → AreKeyed records → AreApart (values records)
  unfolding values
  values-apart [] h = tt
  values-apart ((k, r) ∷ records) (fresh, own, rest) =
      ((λ s m. values-absent k r records own fresh rest s m), values-apart records rest)

  listed-Ascends :
      (f : ListFilter) (options : ListPageOptions) (marks : Option (Dict TrustMarkRecord))
      (records : Dict (SubordinateRecord D)) (rs : List (SubordinateRecord D))
      → AreKeyed records
      → listed f options marks records ≡ ok rs
      → Ascends rs
  unfolding listed
  listed-Ascends f options marks records rs keyed h =
      let typed = filter (has_wanted_type f.wanted_types) (values records) in
      let kinds = filter (is_wanted_kind f.intermediate) typed in
      let kinds_apart = filter-AreApart (is_wanted_kind f.intermediate) typed (
        filter-AreApart (has_wanted_type f.wanted_types) (values records)
          (values-apart records keyed)) in
      filter_marked-Ascends f options marks kinds (filter_marked marks f kinds) refl rs kinds_apart
        h

  page-parts :
      (rs : List (SubordinateRecord D)) (n : ℕ) (cursor : Str)
      → (page (some n) rs).next_cursor ≡ some cursor
      → ((page (some n) rs).items ≡ take n rs)
        × ((next : SubordinateRecord D) × (get_elem? rs n ≡ some next) × (next.entity_id ≡ cursor))
  unfolding page
  page-parts rs n cursor h = elim (Bool-cases (ltb n (length rs))) [
    | inr whole ↦ absurd (cc (rw whole at h))
    | inl cut ↦ elim (Option-cases (get_elem? rs n)) [
      | inl gone ↦ absurd (cc (rw (cut, gone) at h))
      | inr (next, found) ↦
          let at : some next.entity_id ≡ some cursor = rw (cut, found) at h in
          (rw cut refl, (next, found, cc at))
    ]
  ]

  list_split :
      (m : Result SubordinateError (List (SubordinateRecord D))) (cursor : Option Str)
      (limit : Option ℕ) (p : ListPage D)
      → (elim m [ err e ↦ err e | ok sorted ↦ ok (page limit (from_cursor cursor sorted)) ]) ≡ ok p
      → (rs : List (SubordinateRecord D)) × (m ≡ ok rs) × (p ≡ page limit (from_cursor cursor rs))
  list_split (err e) cursor limit p h = cc
  list_split (ok rs) cursor limit p h = (rs, refl, cc h)

  list_join :
      (m : Result SubordinateError (List (SubordinateRecord D))) (cursor : Option Str)
      (limit : Option ℕ) (rs : List (SubordinateRecord D))
      → m ≡ ok rs
      → (elim m [ err e ↦ err e | ok sorted ↦ ok (page limit (from_cursor cursor sorted)) ])
        ≡ ok (page limit (from_cursor cursor rs))
  list_join m cursor limit rs h = rw h refl

  -- Neither the cursor nor the limit matters for what is listed before them.
  list_of :
      (f : ListFilter) (options : ListPageOptions) (cursor : Option Str) (limit : Option ℕ)
      (marks : Option (Dict TrustMarkRecord)) (records : Dict (SubordinateRecord D))
      (rs : List (SubordinateRecord D))
      → listed f options marks records ≡ ok rs
      → list f (record options { cursor = cursor; limit = limit }) marks records
        ≡ ok (page limit (from_cursor cursor rs))
  unfolding list listed is_updated_within
  list_of f options cursor limit marks records rs h =
      list_join (listed f options marks records) cursor limit rs h

  list_inv :
      (f : ListFilter) (options : ListPageOptions) (cursor : Option Str) (limit : Option ℕ)
      (marks : Option (Dict TrustMarkRecord)) (records : Dict (SubordinateRecord D))
      (p : ListPage D)
      → list f (record options { cursor = cursor; limit = limit }) marks records ≡ ok p
      → (rs : List (SubordinateRecord D)) × (listed f options marks records ≡ ok rs)
        × (p ≡ page limit (from_cursor cursor rs))
  unfolding list listed is_updated_within
  list_inv f options cursor limit marks records p h =
      list_split (listed f options marks records) cursor limit p h

  -- The list without a limit is a page of it followed by the list, without a limit, from the cursor
  -- that the page gives, for records each kept under its own identifier.
  pub list-pages :
      (f : ListFilter) (options : ListPageOptions) (marks : Option (Dict TrustMarkRecord))
      (records : Dict (SubordinateRecord D)) (n : ℕ) (cursor : Str) (first : ListPage D)
      → AreKeyed records
      → list f (record options { limit = some n }) marks records ≡ ok first
      → first.next_cursor ≡ some cursor
      → (rest : ListPage D) × (list f
            (record options { cursor = some cursor; limit = none })
            marks
            records
          ≡ ok rest)
        × (list f (record options { limit = none }) marks records
            ≡ ok (record { items = first.items ++ rest.items; next_cursor = none }))
  unfolding page
  list-pages f options marks records n cursor first keyed h more =
      let (rs, found, first_eq) =
        list_inv f options options.cursor (some n) marks records first h in
      let shown = from_cursor options.cursor rs in
      let next_eq : (page (some n) shown).next_cursor ≡ some cursor = rw (← first_eq) more in
      let (front, (next, at, id)) = page-parts shown n cursor next_eq in
      let sorted = listed-Ascends f options marks records rs keyed found in
      let cut = take-from_cursor shown n next (from_cursor-Ascends options.cursor rs sorted) at in
      let later = from_cursor-from_cursor options.cursor rs next (get_elem?-In shown n next at) in
      let items_eq : first.items ≡ take n shown = ap (λ p. p.items) first_eq ∙ front in
      let later' : from_cursor (some next.entity_id) shown ≡ from_cursor (some cursor) rs =
        later ∙ ap (λ c. from_cursor (some c) rs) id in
      let whole : shown ≡ first.items ++ from_cursor (some cursor) rs =
        cut
        ∙ (ap (λ t. take n shown ++ t) later'
            ∙ ap (λ t. t ++ from_cursor (some cursor) rs) (sym items_eq)) in
      (
        record { items = from_cursor (some cursor) rs; next_cursor = none },
        list_of f options (some cursor) none marks records rs found,
        list_of f options options.cursor none marks records rs found
            ∙ ap (λ t. ok (record { items = t; next_cursor = none })) whole,
      )
