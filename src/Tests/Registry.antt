-- ===== src/Tests/Registry.antt =====
-- The authority's storage and the shape of its statements at concrete inputs.
use oidfed.Common.{
  Option, ℕ, Str, js, Dict, get, put, ◌≡◌, ◌↔◌, refl, none, some, List, [], ◌∷◌, ◌++◌, inl, inr,
  ◌⊎◌, str_eq, ◌&&◌, Bool, true, false, ok, if◌then◌else◌, map,
}
use oidfed.Json.{fields, Json, str, num, arr, obj, items, end, field, entries}
use oidfed.MetadataValues.{has_null, find_invalid_metadata_null_paths, walk}
use oidfed.Authority.Order.{sort, insert, str_lt, compare_strings}
use oidfed.Authority.Marks.{
  TrustMarkRecord, values, matches_mark, is_valid_trust_mark, newest_first, get_valid, issue,
  revoke, revoke_loop,
}
use oidfed.Authority.Marks.Laws.{
  IsNewestValid, get_valid-IsNewestValid, revoke-get_valid, issue-revoke,
}
use oidfed.Authority.Shape.{
  sanitize_subordinate_metadata, sanitize_loop, sanitize_block, filter_claims,
  is_federation_entity_operational_field, assert_crit_shape,
}
use oidfed.Authority.Shape.Laws.{HasCleanBlock, sanitize_subordinate_metadata-HasCleanBlock}
use oidfed.Authority.Shape.Crit.{IsCrit, assert_crit_shape_iff}
use oidfed.Authority.Subordinates.{
  SubordinateRecord, SubordinateRecordUpdate, ListFilter, ListPageOptions, ListPage, list, listed,
  page, filter_marked, is_updated_within, has_wanted_type, is_wanted_kind,
  validate_subordinate_record, Operation, offenders, keys, add_record, remove_record, run,
}
use oidfed.Authority.Subordinates.Pages.{list-pages}
use oidfed.Authority.Subordinates.Laws.{
  IsWellFormed, validate_subordinate_record_iff, run-IsWellFormed,
}

abbrev mark : Str → ℕ → TrustMarkRecord
mark token issued = record {
  trust_mark_type = js "t";
  subject = js "s";
  jwt = token;
  issued_at = issued;
  expires_at = some 100;
  active = true;
  revoked_at = none;
}

abbrev marks : Dict TrustMarkRecord
marks = (js "j1", mark (js "j1") 5) ∷ (js "j2", mark (js "j2") 7) ∷ []

abbrev revoked : TrustMarkRecord → TrustMarkRecord
revoked r = record r { active = false; revoked_at = some 20 }

abbrev revoked_marks : Dict TrustMarkRecord
revoked_marks = (js "j1", revoked (mark (js "j1") 5)) ∷ (js "j2", revoked (mark (js "j2") 7)) ∷ []

get_valid-IsNewestValid_example : IsNewestValid (js "t") (js "s") 10 marks (mark (js "j2") 7)
unfolding get_valid values matches_mark is_valid_trust_mark newest_first compare_strings sort insert
    str_eq
get_valid-IsNewestValid_example =
    get_valid-IsNewestValid (js "t") (js "s") 10 marks (mark (js "j2") 7) refl

revoke-get_valid_example : get_valid (js "t") (js "s") 30 revoked_marks ≡ (
    if str_eq (js "t") (js "t") && str_eq (js "s") (js "s")
    then none
    else get_valid (js "t") (js "s") 30 marks)
unfolding revoke revoke_loop values str_eq
revoke-get_valid_example =
    revoke-get_valid (js "t") (js "s") 20 marks revoked_marks refl (js "t") (js "s") 30

issue-revoke_example :
    ((now : TrustMarkRecord) × (get (js "j1") (issue (mark (js "j1") 5) revoked_marks) ≡ some now)
      × (now.active ≡ false))
    × ((valid_at : ℕ)
        → get_valid (js "t") (js "s") valid_at (issue (mark (js "j1") 5) revoked_marks) ≡ none)
unfolding revoke revoke_loop values str_eq get
issue-revoke_example =
    issue-revoke (js "t") (js "s") 20 marks revoked_marks (mark (js "j1") 5) (mark (js "j1") 5) refl
      refl refl refl

abbrev block : Dict Json
block =
    (
      js "federation_entity",
      obj (
          field (js "federation_fetch_endpoint") (num 1)
            (field (js "organization_name") (num 2) end)),
    )
    ∷ []

abbrev clean_block : Dict Json
clean_block = (js "federation_entity", obj (field (js "organization_name") (num 2) end)) ∷ []

sanitize_subordinate_metadata-HasCleanBlock_example : HasCleanBlock clean_block
unfolding sanitize_subordinate_metadata sanitize_loop sanitize_block str_eq filter_claims entries
    put fields is_federation_entity_operational_field
sanitize_subordinate_metadata-HasCleanBlock_example =
    sanitize_subordinate_metadata-HasCleanBlock (some block) clean_block refl

abbrev payload : Dict Json
payload = (js "crit", arr (items (str (js "ext") ∷ []))) ∷ (js "ext", num 1) ∷ []

assert_crit_shape_iff_example : (assert_crit_shape payload ≡ ok tt) ↔ (
    (get (js "crit") payload ≡ none)
    ⊎ ((names : List Str) × (get (js "crit") payload ≡ some (arr (items (map str names))))
        × IsCrit payload names))
assert_crit_shape_iff_example = assert_crit_shape_iff payload

abbrev subordinate : Str → ℕ → SubordinateRecord (Unit {0})
subordinate entity created = record {
  entity_id = entity;
  metadata = some clean_block;
  entity_types = none;
  is_intermediate = none;
  details = tt;
  created_at = created;
  updated_at = created;
}

abbrev registry : Dict (SubordinateRecord (Unit {0}))
registry = (js "b", subordinate (js "b") 1) ∷ (js "a", subordinate (js "a") 2) ∷ []

abbrev all_integers : ℕ → Bool
all_integers n = true

abbrev operations : List (Operation (Unit {0}))
operations =
    add_record (subordinate (js "a") 1) ∷ remove_record (js "a") ∷ remove_record (js "a") ∷ []

run-IsWellFormed_example : IsWellFormed all_integers (run all_integers operations [])
unfolding values
run-IsWellFormed_example =
    run-IsWellFormed all_integers operations []
      (record { keyed = tt; publishable = λ r m. absurd m })

abbrev registrations : List (Operation (Unit {0}))
registrations = add_record (subordinate (js "b") 1) ∷ add_record (subordinate (js "a") 2) ∷ []

abbrev rename : SubordinateRecordUpdate (Unit {0})
rename = record {
  new_metadata = none;
  new_entity_types = none;
  new_is_intermediate = some (some true);
  new_details = λ d. d;
}

abbrev alone : Dict (SubordinateRecord (Unit {0}))
alone = (js "b", subordinate (js "b") 1) ∷ []

registered : IsWellFormed all_integers alone
unfolding validate_subordinate_record has_null find_invalid_metadata_null_paths walk fields
    offenders get str_eq keys entries is_federation_entity_operational_field values
registered = record {
  keyed = (refl, refl, tt);
  publishable = λ r m. elim m [
    | inl e ↦ rw e ((validate_subordinate_record_iff all_integers (subordinate (js "b") 1)).0 refl)
    | inr n ↦ absurd n
  ];
}

abbrev renamed : Dict (SubordinateRecord (Unit {0}))
renamed =
    (js "b", record (subordinate (js "b") 1) { is_intermediate = some true; updated_at = 9 }) ∷ []

abbrev no_filter : ListFilter
no_filter = record {
  wanted_types = none;
  trust_marked = none;
  trust_mark_types = none;
  intermediate = none;
  valid_at = none;
}

abbrev no_options : ListPageOptions
no_options = record { cursor = none; limit = none; updated_after = none; updated_before = none }

abbrev first_page : ListPage (Unit {0})
first_page = record { items = subordinate (js "a") 2 ∷ []; next_cursor = some (js "b") }

list-pages_example :
    (rest : ListPage (Unit {0})) × (list no_filter
        (record no_options { cursor = some (js "b"); limit = none })
        none
        registry
      ≡ ok rest)
    × (list no_filter (record no_options { limit = none }) none registry
        ≡ ok (record { items = first_page.items ++ rest.items; next_cursor = none }))
unfolding list listed page filter_marked is_updated_within has_wanted_type is_wanted_kind values
    sort insert str_lt compare_strings get str_eq
list-pages_example =
    list-pages no_filter no_options none registry 1 (js "b") first_page
      ((refl, refl, (refl, refl, tt))) refl refl

abbrev events : Dict (Dict (List ℕ))
events = (js "i", (js "s", 1 ∷ []) ∷ []) ∷ []

abbrev more_events : Dict (Dict (List ℕ))
more_events = (js "i", (js "s", 1 ∷ 2 ∷ []) ∷ []) ∷ []

abbrev read_event : ℕ → Option ℕ
read_event n = some n
