-- ===== src/Authority/Subordinates/Entries.antt =====
-- The map of the subordinates under writes and deletions.
use oidfed.Common.{
  Str, Dict, get, put, delete, get-put, get-delete, str_eq, str_eq_iff, In, inl, inr, ◌⊎◌, ◌≡◌,
  refl, ap, sym, ◌∙◌, Bool-cases, some, [], ◌∷◌, arith,
}
use oidfed.Authority.Marks.{values}
use oidfed.Authority.Subordinates.{SubordinateRecord}
use oidfed.Authority.Subordinates.Pages.{AreKeyed}

module _ {D : Type 0} where
  pub put-AreKeyed :
      (k : Str) (r : SubordinateRecord D) (records : Dict (SubordinateRecord D))
      → k ≡ r.entity_id
      → AreKeyed records
      → AreKeyed (put k r records)
  unfolding put get
  put-AreKeyed k r [] own h = (refl, own, tt)
  put-AreKeyed k r ((j, t) ∷ records) own h = elim (Bool-cases (str_eq j k)) [
    | inl same ↦ rw same (h.0, (str_eq_iff j k).0 same ∙ own, h.2)
    | inr other ↦ rw other (
      get-put k j r records ∙ ground (arith, other, h.0, str_eq_iff k j, str_eq_iff j k),
      h.1,
      put-AreKeyed k r records own h.2,
    )
  ]

  pub In-put :
      (k : Str) (r : SubordinateRecord D) (records : Dict (SubordinateRecord D))
      (s : SubordinateRecord D)
      → In s (values (put k r records))
      → (s ≡ r) ⊎ In s (values records)
  unfolding put values
  In-put k r [] s m = m
  In-put k r ((j, t) ∷ records) s m = elim (Bool-cases (str_eq j k)) [
    | inl same ↦
        let m' : In s (values ((j, r) ∷ records)) = rw same at m in
        elim m' [ inl e ↦ inl e | inr n ↦ inr (inr n) ]
    | inr other ↦
        let m' : In s (values ((j, t) ∷ put k r records)) = rw other at m in
        elim m' [
          | inl e ↦ inr (inl e)
          | inr n ↦ elim (In-put k r records s n) [ inl e ↦ inl e | inr q ↦ inr (inr q) ]
        ]
  ]

  pub delete-AreKeyed :
      (k : Str) (records : Dict (SubordinateRecord D))
      → AreKeyed records
      → AreKeyed (delete k records)
  unfolding delete get
  delete-AreKeyed k [] h = tt
  delete-AreKeyed k ((j, t) ∷ records) h = elim (Bool-cases (str_eq j k)) [
    | inl same ↦ rw same (delete-AreKeyed k records h.2)
    | inr other ↦
        rw other (get-delete k j records ∙ ground (arith, h.0), h.1, delete-AreKeyed k records h.2)
  ]

  pub In-delete :
      (k : Str) (records : Dict (SubordinateRecord D)) (s : SubordinateRecord D)
      → In s (values (delete k records))
      → In s (values records)
  unfolding delete values
  In-delete k [] s m = m
  In-delete k ((j, t) ∷ records) s m = elim (Bool-cases (str_eq j k)) [
    | inl same ↦ inr (In-delete k records s (rw same at m))
    | inr other ↦
        let m' : In s (values ((j, t) ∷ delete k records)) = rw other at m in
        elim m' [ inl e ↦ inl e | inr n ↦ inr (In-delete k records s n) ]
  ]

  pub get-own :
      (k : Str) (records : Dict (SubordinateRecord D)) (r : SubordinateRecord D)
      → AreKeyed records
      → get k records ≡ some r
      → k ≡ r.entity_id
  unfolding get
  get-own k [] r h found = cc
  get-own k ((j, t) ∷ records) r h found = elim (Bool-cases (str_eq j k)) [
    | inl same ↦
        let at : some t ≡ some r = rw same at found in
        let e : t ≡ r = cc at in sym ((str_eq_iff j k).0 same) ∙ (h.1 ∙ ap (λ o. o.entity_id) e)
    | inr other ↦ get-own k records r h.2 (rw other at found)
  ]
