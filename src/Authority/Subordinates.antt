-- ===== src/Authority/Subordinates.antt =====
-- Subordinate records: packages/authority/src/storage/types.ts and `MemorySubordinateStorage` of
-- storage/memory.ts. Fields that the storage only copies (the keys, the policy, the constraints, the
-- critical names, the source endpoint) are one field, `details`, of any type. The mark records are
-- those of a storage that has them. Times and limits are natural numbers.
pub mod Laws
pub mod Ascending
pub mod Pages
pub mod Entries
use oidfed.Common.{
  ℕ, Str, js, Dict, get, put, delete, has, str_eq, length, get_elem?, take, filter, any, ltb, leb,
  Bool, true, false, not, ◌&&◌, ◌||◌, Option, none, some, List, [], ◌∷◌, if◌then◌else◌, Result, ok,
  err, ◌>>=◌,
}
use oidfed.Json.{Json, obj, Fields, entries}
use oidfed.MetadataValues.{has_null}
use oidfed.Authority.Order.{str_lt, compare_strings, sort}
use oidfed.Authority.Marks.{TrustMarkRecord, is_valid_trust_mark, is_greater, values}
use oidfed.Authority.Shape.{is_federation_entity_operational_field}

pub record SubordinateRecord (D : Type 0) : Type 0 where
  pub entity_id : Str
  pub metadata : Option (Dict Json)
  pub entity_types : Option (List Str)
  pub is_intermediate : Option Bool
  pub details : D
  pub created_at : ℕ
  pub updated_at : ℕ

-- `SubordinateRecordUpdate`: the fields that are given.
pub record SubordinateRecordUpdate (D : Type 0) : Type 0 where
  pub new_metadata : Option (Option (Dict Json))
  pub new_entity_types : Option (Option (List Str))
  pub new_is_intermediate : Option (Option Bool)
  pub new_details : D → D

-- `trust_mark_types` is a list also where one type is given.
pub record ListFilter : Type 0 where
  pub wanted_types : Option (List Str)
  pub trust_marked : Option Bool
  pub trust_mark_types : Option (List Str)
  pub intermediate : Option Bool
  pub valid_at : Option ℕ

pub record ListPageOptions : Type 0 where
  pub cursor : Option Str
  pub limit : Option ℕ
  pub updated_after : Option ℕ
  pub updated_before : Option ℕ

pub record ListPage (D : Type 0) : Type 0 where
  pub items : List (SubordinateRecord D)
  pub next_cursor : Option Str

pub data SubordinateError : Type 0 where
  operational_fields : List Str → SubordinateError
  null_metadata : SubordinateError
  already_exists : Str → SubordinateError
  not_found : Str → SubordinateError
  valid_at_required : SubordinateError
  marks_unsupported : SubordinateError

unfoldable pub keys : Dict Json → List Str
keys [] = []
keys ((k, _) ∷ d) = k ∷ keys d

-- The operational fields of the federation entity's block, where there is one.
unfoldable pub offenders : Dict Json → List Str
offenders metadata = elim (get (js "federation_entity") metadata) [
  | some (obj block) ↦ filter is_federation_entity_operational_field (keys (entries block))
  | _ ↦ []
]

abbrev pub bool_same : Bool → Bool → Bool
bool_same true b = b
bool_same false b = not b

abbrev pub wants_marks : ListFilter → Bool
wants_marks f =
    (elim f.trust_marked [ some true ↦ true | _ ↦ false ])
    || (elim f.trust_mark_types [ none ↦ false | some _ ↦ true ])

module _ {D : Type 0} where
  -- `[...marks.values()].some(...)`: a valid mark of the record, of a type asked for.
  unfoldable pub is_marked :
      Dict TrustMarkRecord → Option (List Str) → ℕ → SubordinateRecord D → Bool
  is_marked marks requested valid_at r =
      any
        (λ mark.
          str_eq mark.subject r.entity_id
          && (elim requested [ none ↦ true | some types ↦ any (str_eq mark.trust_mark_type) types ])
          && is_valid_trust_mark mark valid_at)
        (values marks)

  -- `filter.entityTypes?.length` is false for no list and for the empty one.
  unfoldable pub has_wanted_type : Option (List Str) → SubordinateRecord D → Bool
  has_wanted_type none r = true
  has_wanted_type (some []) r = true
  has_wanted_type (some (t ∷ ts)) r = elim r.entity_types [
    | none ↦ false
    | some types ↦ any (λ type. any (str_eq type) (t ∷ ts)) types
  ]

  unfoldable pub is_wanted_kind : Option Bool → SubordinateRecord D → Bool
  is_wanted_kind none r = true
  is_wanted_kind (some wanted) r =
      bool_same (elim r.is_intermediate [ none ↦ false | some b ↦ b ]) wanted

  unfoldable pub is_updated_within : ListPageOptions → SubordinateRecord D → Bool
  is_updated_within options r =
      (elim options.updated_after [ none ↦ true | some t ↦ leb t r.updated_at ])
      && (elim options.updated_before [ none ↦ true | some t ↦ leb r.updated_at t ])

  -- The filter on trust marks, with its errors.
  unfoldable pub filter_marked :
      Option (Dict TrustMarkRecord)
      → ListFilter
      → List (SubordinateRecord D)
      → Result SubordinateError (List (SubordinateRecord D))
  filter_marked marks f results =
      if wants_marks f
      then (elim f.valid_at [
        | none ↦ err valid_at_required
        | some at ↦ elim marks [
          | none ↦ err marks_unsupported
          | some ms ↦ ok (filter (is_marked ms f.trust_mark_types at) results)
        ]
      ])
      else ok results

  abbrev pub by_entity_id : SubordinateRecord D → SubordinateRecord D → Bool
  by_entity_id a b = not (is_greater (compare_strings a.entity_id b.entity_id))

  abbrev pub from_cursor : Option Str → List (SubordinateRecord D) → List (SubordinateRecord D)
  from_cursor none results = results
  from_cursor (some c) results = filter (λ r. not (str_lt r.entity_id c)) results

  unfoldable pub page : Option ℕ → List (SubordinateRecord D) → ListPage D
  page none results = record { items = results; next_cursor = none }
  page (some limit) results =
      if ltb limit (length results)
      then record {
        items = take limit results;
        next_cursor = elim (get_elem? results limit) [
          | none ↦ none
          | some next ↦ some next.entity_id
        ];
      }
      else record { items = results; next_cursor = none }

  -- The records of `list` in order, before the cursor and the limit: a filter and options that are
  -- not given are those without a field.
  unfoldable pub listed :
      ListFilter
      → ListPageOptions
      → Option (Dict TrustMarkRecord)
      → Dict (SubordinateRecord D)
      → Result SubordinateError (List (SubordinateRecord D))
  listed f options marks records =
      let typed = filter (has_wanted_type f.wanted_types) (values records) in
      let kinds = filter (is_wanted_kind f.intermediate) typed in
      elim (filter_marked marks f kinds) [
        | err e ↦ err e
        | ok marked ↦ ok (sort by_entity_id (filter (is_updated_within options) marked))
      ]

  unfoldable pub list :
      ListFilter
      → ListPageOptions
      → Option (Dict TrustMarkRecord)
      → Dict (SubordinateRecord D)
      → Result SubordinateError (ListPage D)
  list f options marks records = elim (listed f options marks records) [
    | err e ↦ err e
    | ok sorted ↦ ok (page options.limit (from_cursor options.cursor sorted))
  ]

  unfoldable pub remove :
      Str → Dict (SubordinateRecord D) → Result SubordinateError (Dict (SubordinateRecord D))
  remove entity_id records =
      if has entity_id records then ok (delete entity_id records) else err (not_found entity_id)

  -- `{ ...existing, ...updates, entityId, createdAt, updatedAt }`
  unfoldable pub updated : SubordinateRecord D → SubordinateRecordUpdate D → ℕ → SubordinateRecord D
  updated existing u now = record {
    entity_id = existing.entity_id;
    metadata = elim u.new_metadata [ none ↦ existing.metadata | some m ↦ m ];
    entity_types = elim u.new_entity_types [ none ↦ existing.entity_types | some t ↦ t ];
    is_intermediate = elim u.new_is_intermediate [ none ↦ existing.is_intermediate | some b ↦ b ];
    details = u.new_details existing.details;
    created_at = existing.created_at;
    updated_at = now;
  }

-- `is_integer` is `Number.isInteger` on the codes of numbers.
module _ {D : Type 0} (is_integer : ℕ → Bool) where
  unfoldable pub validate_subordinate_record :
      SubordinateRecord D → Result SubordinateError (Unit {0})
  validate_subordinate_record r = elim r.metadata [
    | none ↦ ok tt
    | some metadata ↦ elim (offenders metadata) [
      | [] ↦ if has_null is_integer metadata then err null_metadata else ok tt
      | k ∷ ks ↦ err (operational_fields (k ∷ ks))
    ]
  ]

  unfoldable pub add :
      SubordinateRecord D
      → Dict (SubordinateRecord D)
      → Result SubordinateError (Dict (SubordinateRecord D))
  add r records = elim (validate_subordinate_record r) [
    | err e ↦ err e
    | ok _ ↦
        if has r.entity_id records
        then err (already_exists r.entity_id)
        else ok (put r.entity_id r records)
  ]

  unfoldable pub update :
      Str
      → SubordinateRecordUpdate D
      → ℕ
      → Dict (SubordinateRecord D)
      → Result SubordinateError (Dict (SubordinateRecord D))
  update entity_id u now records = elim (get entity_id records) [
    | none ↦ err (not_found entity_id)
    | some existing ↦ elim (validate_subordinate_record (updated existing u now)) [
      | err e ↦ err e
      | ok _ ↦ ok (put entity_id (updated existing u now) records)
    ]
  ]

pub data Operation (D : Type 0) : Type 0 where
  add_record : SubordinateRecord D → Operation D
  update_record : Str → SubordinateRecordUpdate D → ℕ → Operation D
  remove_record : Str → Operation D

module _ {D : Type 0} (is_integer : ℕ → Bool) where
  unfoldable pub step :
      Operation D
      → Dict (SubordinateRecord D)
      → Result SubordinateError (Dict (SubordinateRecord D))
  step (add_record r) records = add is_integer r records
  step (update_record entity_id u now) records = update is_integer entity_id u now records
  step (remove_record entity_id) records = remove entity_id records

  -- An operation that throws has written nothing.
  unfoldable pub run : List (Operation D) → Dict (SubordinateRecord D) → Dict (SubordinateRecord D)
  run [] records = records
  run (o ∷ os) records = run os (elim (step o records) [ err _ ↦ records | ok records' ↦ records' ])

  -- `transaction` of operations on subordinates, which passes on what they throw: they are made on a
  -- copy of the state, which takes its place only where none of them threw.
  unfoldable pub transaction :
      List (Operation D)
      → Dict (SubordinateRecord D)
      → Result SubordinateError (Dict (SubordinateRecord D))
  transaction [] draft = ok draft
  transaction (o ∷ os) draft = step o draft >>= transaction os
