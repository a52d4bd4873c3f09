-- ===== src/Authority/Subordinates/Ascending.antt =====
-- Lists of subordinates whose identifiers ascend strictly: what sorting makes of distinct identifiers.
use oidfed.Common.{
  filter, In-filter, In, inl, inr, ◌≡◌, ◌≢◌, refl, ap, sym, ◌∙◌, Bool, true, false, not, Bool-cases,
  List, [], ◌∷◌, arith,
}
use oidfed.Authority.Order.{
  str_lt, str_lt_irrefl, str_lt_trans, str_lt_antisym, not_lt_trans, compare_strings, insert, sort,
  In-insert, In-sort, IsSorted, sort-IsSorted,
}
use oidfed.Authority.Subordinates.{SubordinateRecord, by_entity_id}

module _ {D : Type 0} where
  by_entity_id_iff :
      (a b : SubordinateRecord D) → by_entity_id a b ≡ not (str_lt b.entity_id a.entity_id)
  unfolding compare_strings
  by_entity_id_iff a b =
      ground (arith, str_lt_trans a.entity_id b.entity_id a.entity_id, str_lt_irrefl a.entity_id)

  by_entity_id_total :
      (a b : SubordinateRecord D) → by_entity_id a b ≡ false → by_entity_id b a ≡ true
  by_entity_id_total a b h =
      let h' = sym (by_entity_id_iff a b) ∙ h in
      by_entity_id_iff b a
      ∙ ground
          (arith, h', str_lt_trans a.entity_id b.entity_id a.entity_id, str_lt_irrefl a.entity_id)

  by_entity_id_trans :
      (a b c : SubordinateRecord D)
      → by_entity_id a b ≡ true
      → by_entity_id b c ≡ true
      → by_entity_id a c ≡ true
  by_entity_id_trans a b c h k =
      let h' = sym (by_entity_id_iff a b) ∙ h in
      let k' = sym (by_entity_id_iff b c) ∙ k in
      by_entity_id_iff a c
      ∙ ground (arith, h', k', not_lt_trans c.entity_id b.entity_id a.entity_id)

  -- No two records have one identifier.
  abbrev pub AreApart : List (SubordinateRecord D) → Type 0
  AreApart [] = Unit
  AreApart (r ∷ rs) =
      ((s : SubordinateRecord D) → In s rs → r.entity_id ≢ s.entity_id) × AreApart rs

  pub filter-AreApart :
      (p : SubordinateRecord D → Bool) (rs : List (SubordinateRecord D))
      → AreApart rs
      → AreApart (filter p rs)
  filter-AreApart p [] h = tt
  filter-AreApart p (r ∷ rs) h = elim (Bool-cases (p r)) [
    | inl hit ↦ rw hit ((λ s m. h.0 s (In-filter p s rs m).0), filter-AreApart p rs h.1)
    | inr miss ↦ rw miss (filter-AreApart p rs h.1)
  ]

  insert-AreApart :
      (r : SubordinateRecord D) (rs : List (SubordinateRecord D))
      → ((s : SubordinateRecord D) → In s rs → r.entity_id ≢ s.entity_id)
      → AreApart rs
      → AreApart (insert by_entity_id r rs)
  unfolding insert
  insert-AreApart r [] f h = ((λ s m. absurd m), tt)
  insert-AreApart r (t ∷ rs) f h = elim (Bool-cases (by_entity_id r t)) [
    | inl hit ↦ rw hit (f, h)
    | inr miss ↦ rw miss (
      (λ s m. elim (In-insert by_entity_id s r rs m) [
        | inl e ↦ λ same. f t (inl refl) (sym (same ∙ ap (λ x. x.entity_id) e))
        | inr k ↦ h.0 s k
      ]),
      insert-AreApart r rs (λ s m. f s (inr m)) h.1,
    )
  ]

  sort-AreApart : (rs : List (SubordinateRecord D)) → AreApart rs → AreApart (sort by_entity_id rs)
  unfolding sort
  sort-AreApart [] h = tt
  sort-AreApart (r ∷ rs) h =
      insert-AreApart r (sort by_entity_id rs) (λ s m. h.0 s (In-sort by_entity_id s rs m))
        (sort-AreApart rs h.1)

  -- Strictly ascending identifiers.
  abbrev pub Ascends : List (SubordinateRecord D) → Type 0
  Ascends [] = Unit
  Ascends (r ∷ rs) =
      ((s : SubordinateRecord D) → In s rs → str_lt r.entity_id s.entity_id ≡ true) × Ascends rs

  ascends : (rs : List (SubordinateRecord D)) → IsSorted by_entity_id rs → AreApart rs → Ascends rs
  ascends [] s h = tt
  ascends (r ∷ rs) s h = (
    (λ t m.
        let le = sym (by_entity_id_iff r t) ∙ s.0 t m in
        let ne = h.0 t m in
        elim (Bool-cases (str_lt r.entity_id t.entity_id)) [
          | inl e ↦ e
          | inr ge ↦ absurd (ne (str_lt_antisym r.entity_id t.entity_id ge (ground (arith, le))))
        ]),
    ascends rs s.1 h.1,
  )

  pub sort-Ascends :
      (rs : List (SubordinateRecord D)) → AreApart rs → Ascends (sort by_entity_id rs)
  sort-Ascends rs h =
      ascends (sort by_entity_id rs)
        (sort-IsSorted by_entity_id by_entity_id_total by_entity_id_trans rs) (sort-AreApart rs h)
