-- ===== src/Authority/Subordinates/Laws.antt =====
-- What the storage of subordinates keeps: well-formed records, each under its own identifier.
use oidfed.Common.{
  ℕ, Str, Dict, get, put, delete, has, get-put, str_eq, In, inl, inr, ◌≡◌, ◌↔◌, refl, ap, sym, ◌∙◌,
  Bool, false, Bool-cases, Option-cases, some, List, [], ◌∷◌, arith, if◌then◌else◌, Result, ok, err,
  ◌>>=◌,
}
use oidfed.Json.{Json}
use oidfed.MetadataValues.{has_null}
use oidfed.Authority.Marks.{values}
use oidfed.Authority.Subordinates.{
  SubordinateRecord, SubordinateRecordUpdate, SubordinateError, null_metadata, operational_fields,
  offenders, validate_subordinate_record, add, updated, update, remove, Operation, add_record,
  update_record, remove_record, step, run, transaction,
}
use oidfed.Authority.Subordinates.Pages.{AreKeyed}
use oidfed.Authority.Subordinates.Entries.{
  put-AreKeyed, In-put, delete-AreKeyed, In-delete, get-own,
}

module _ {D : Type 0} (is_integer : ℕ → Bool) where
  -- Metadata carries no operational field of a federation entity and no forbidden null.
  pub record IsPublishable (r : SubordinateRecord D) : Type 0 where
    pub no_offenders : (m : Dict Json) → r.metadata ≡ some m → offenders m ≡ []
    pub no_null : (m : Dict Json) → r.metadata ≡ some m → has_null is_integer m ≡ false

  -- The records are each under its own identifier and publishable.
  pub record IsWellFormed (records : Dict (SubordinateRecord D)) : Type 0 where
    pub keyed : AreKeyed records
    pub publishable : (r : SubordinateRecord D) → In r (values records) → IsPublishable r

module _ (is_integer : ℕ → Bool) where
  passes :
      (m : Dict Json) (found : List Str)
      → found ≡ []
      → has_null is_integer m ≡ false
      → (elim found [
        | [] ↦ if has_null is_integer m then err null_metadata else ok tt
        | k ∷ ks ↦ err (operational_fields (k ∷ ks))
      ])
        ≡ ok tt
  passes m found e good = rw (e, good) refl

module _ {D : Type 0} (is_integer : ℕ → Bool) where
  validated :
      (m : Dict Json) (r : SubordinateRecord D)
      → r.metadata ≡ some m
      → (found : List Str) → offenders m ≡ found
      → (elim found [
        | [] ↦ if has_null is_integer m then err null_metadata else ok tt
        | k ∷ ks ↦ err (operational_fields (k ∷ ks))
      ])
        ≡ ok tt
      → (offenders m ≡ []) × (has_null is_integer m ≡ false)
  validated m r e [] q h = elim (Bool-cases (has_null is_integer m)) [
    | inl bad ↦ absurd (cc (rw bad at h))
    | inr good ↦ (q, good)
  ]
  validated m r e (k ∷ ks) q h = cc

  -- Validation passes exactly the records whose metadata has neither an operational field of the
  -- federation entity nor a forbidden null.
  pub validate_subordinate_record_iff :
      (r : SubordinateRecord D)
      → (validate_subordinate_record is_integer r ≡ ok tt) ↔ IsPublishable is_integer r
  unfolding validate_subordinate_record
  validate_subordinate_record_iff r = elim (Option-cases r.metadata) [
    | inl absent ↦ (
      λ h. record {
        no_offenders = λ m e. absurd (cc (absent, e));
        no_null = λ m e. absurd (cc (absent, e));
      },
      λ p. rw absent refl,
    )
    | inr (m, given) ↦ (
      λ h.
          let (o, n) = validated m r given (offenders m) refl (rw given at h) in
          record {
            no_offenders = λ m' e. let q : m ≡ m' = cc (given, e) in rw (← q) o;
            no_null = λ m' e. let q : m ≡ m' = cc (given, e) in rw (← q) n;
          },
      λ p.
          rw given (passes is_integer m (offenders m) (p.no_offenders m given) (p.no_null m given)),
    )
  ]

module _ {D : Type 0} (is_integer : ℕ → Bool) where
  put-IsWellFormed :
      (k : Str) (r : SubordinateRecord D) (records : Dict (SubordinateRecord D))
      → k ≡ r.entity_id
      → IsPublishable is_integer r
      → IsWellFormed is_integer records
      → IsWellFormed is_integer (put k r records)
  put-IsWellFormed k r records own good w = record {
    keyed = put-AreKeyed k r records own w.keyed;
    publishable =
        λ s m. elim (In-put k r records s m) [ inl e ↦ rw e good | inr n ↦ w.publishable s n ];
  }

  add-inv :
      (r : SubordinateRecord D) (records records' : Dict (SubordinateRecord D))
      → add is_integer r records ≡ ok records'
      → (validate_subordinate_record is_integer r ≡ ok tt)
        × (has r.entity_id records ≡ false)
        × (records' ≡ put r.entity_id r records)
  unfolding add
  add-inv r records records' h = ground (arith, h)

  update-inv :
      (entity_id : Str) (u : SubordinateRecordUpdate D) (now : ℕ)
      (records records' : Dict (SubordinateRecord D))
      → update is_integer entity_id u now records ≡ ok records'
      → (existing : SubordinateRecord D) × (get entity_id records ≡ some existing)
        × (validate_subordinate_record is_integer (updated existing u now) ≡ ok tt)
        × (records' ≡ put entity_id (updated existing u now) records)
  unfolding update
  update-inv entity_id u now records records' h = elim (Option-cases (get entity_id records)) [
    | inl gone ↦ ground (arith, h, gone)
    | inr (existing, found) ↦
        let both : (validate_subordinate_record is_integer (updated existing u now) ≡ ok tt)
            × (records' ≡ put entity_id (updated existing u now) records) =
          ground (arith, h, found) in
        (existing, found, both.0, both.1)
  ]

  remove-inv :
      (entity_id : Str) (records records' : Dict (SubordinateRecord D))
      → remove entity_id records ≡ ok records'
      → records' ≡ delete entity_id records
  unfolding remove
  remove-inv entity_id records records' h = ground (arith, h)

  updated_own :
      (entity_id : Str) (existing : SubordinateRecord D) (u : SubordinateRecordUpdate D) (now : ℕ)
      → entity_id ≡ existing.entity_id
      → entity_id ≡ (updated existing u now).entity_id
  unfolding updated
  updated_own entity_id existing u now e = e

  step-IsWellFormed :
      (o : Operation D) (records records' : Dict (SubordinateRecord D))
      → IsWellFormed is_integer records
      → step is_integer o records ≡ ok records'
      → IsWellFormed is_integer records'
  unfolding step
  step-IsWellFormed (add_record r) records records' w h =
      let (good, _, e) = add-inv r records records' h in
      rw e (
        put-IsWellFormed r.entity_id r records refl
          ((validate_subordinate_record_iff is_integer r).0 good) w)
  step-IsWellFormed (update_record entity_id u now) records records' w h =
      let (existing, found, good, e) = update-inv entity_id u now records records' h in
      rw e (
        put-IsWellFormed entity_id (updated existing u now) records
          (updated_own entity_id existing u now (get-own entity_id records existing w.keyed found))
          ((validate_subordinate_record_iff is_integer (updated existing u now)).0 good) w)
  step-IsWellFormed (remove_record entity_id) records records' w h =
      let e = remove-inv entity_id records records' h in
      rw e (record {
        keyed = delete-AreKeyed entity_id records w.keyed;
        publishable = λ s m. w.publishable s (In-delete entity_id records s m);
      })

  run-next :
      (o : Operation D) (records : Dict (SubordinateRecord D))
      (m : Result SubordinateError (Dict (SubordinateRecord D)))
      → step is_integer o records ≡ m
      → IsWellFormed is_integer records
      → IsWellFormed is_integer (elim m [ err _ ↦ records | ok records' ↦ records' ])
  run-next o records (err e) h w = w
  run-next o records (ok records') h w = step-IsWellFormed o records records' w h

  -- From well-formed records, a sequence of registrations, updates and removals, whichever of them are
  -- refused, leaves every record under its own identifier, once, and free of operational fields and
  -- forbidden nulls.
  pub run-IsWellFormed :
      (os : List (Operation D)) (records : Dict (SubordinateRecord D))
      → IsWellFormed is_integer records
      → IsWellFormed is_integer (run is_integer os records)
  unfolding run
  run-IsWellFormed [] records w = w
  run-IsWellFormed (o ∷ os) records w =
      run-IsWellFormed os _ (run-next o records (step is_integer o records) refl w)

  transaction_next :
      (o : Operation D) (os : List (Operation D)) (records records' : Dict (SubordinateRecord D))
      (m : Result SubordinateError (Dict (SubordinateRecord D)))
      → step is_integer o records ≡ m
      → ((next : Dict (SubordinateRecord D))
          → transaction is_integer os next ≡ ok records'
          → run is_integer os next ≡ records')
      → (m >>= transaction is_integer os) ≡ ok records'
      → run is_integer os (elim m [ err _ ↦ records | ok next ↦ next ]) ≡ records'
  transaction_next o os records records' (err e) q ih h = cc
  transaction_next o os records records' (ok next) q ih h = ih next h

  -- A transaction that commits leaves what its operations leave when none of them is refused.
  pub transaction-run :
      (os : List (Operation D)) (records records' : Dict (SubordinateRecord D))
      → transaction is_integer os records ≡ ok records'
      → run is_integer os records ≡ records'
  unfolding transaction run
  transaction-run [] records records' h = cc h
  transaction-run (o ∷ os) records records' h =
      transaction_next o os records records' (step is_integer o records) refl
        (λ next. transaction-run os next records') h

  -- After an update that succeeds on well-formed records the entity has a record with its identifier
  -- and its time of creation as before and the time of the update, and every other entity has the
  -- record it had.
  pub update-get :
      (entity_id : Str) (u : SubordinateRecordUpdate D) (now : ℕ)
      (records records' : Dict (SubordinateRecord D))
      → IsWellFormed is_integer records
      → update is_integer entity_id u now records ≡ ok records'
      → (existing new : SubordinateRecord D) × (get entity_id records ≡ some existing)
        × (new.entity_id ≡ entity_id)
        × (new.created_at ≡ existing.created_at)
        × (new.updated_at ≡ now)
        × ((key : Str)
            → get key records' ≡ (if str_eq entity_id key then some new else get key records))
  unfolding updated
  update-get entity_id u now records records' w h =
      let (existing, found, good, e) = update-inv entity_id u now records records' h in
      (
        existing,
        updated existing u now,
        found,
        sym (get-own entity_id records existing w.keyed found),
        refl,
        refl,
        λ key. ap (get key) e ∙ get-put entity_id key (updated existing u now) records,
      )
