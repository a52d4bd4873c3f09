-- ===== src/Authority/Marks.antt =====
-- Trust marks: the records of packages/authority/src/storage/types.ts and `MemoryTrustMarkStorage` of
-- storage/memory.ts, over the map of the records by their token. A storage without that map is not
-- built, since the adapter makes a `trustMarks` part only where it has one. Times and limits are
-- natural numbers.
pub mod Laws
use oidfed.Common.{
  ℕ, ◌<◌, Str, Dict, get, put, has, str_eq, length, get_elem?, take, filter, any, map, ltb, leb,
  ◌==◌, Bool, true, false, not, ◌&&◌, ◌||◌, Option, none, some, List, [], ◌∷◌, if◌then◌else◌,
  Result, ok, err,
}
use oidfed.Authority.Order.{str_lt, compare_strings, Sign, less, same, greater, sort}

pub record TrustMarkRecord : Type 0 where
  pub trust_mark_type : Str
  pub subject : Str
  pub jwt : Str
  pub issued_at : ℕ
  pub expires_at : Option ℕ
  pub active : Bool
  pub revoked_at : Option ℕ

pub record TrustMarkListOptions : Type 0 where
  pub only_subject : Option Str
  pub cursor : Option Str
  pub limit : ℕ

pub record TrustMarkListPage : Type 0 where
  pub items : List TrustMarkRecord
  pub next_cursor : Option Str

pub data StorageError : Type 0 where
  not_found : StorageError
  range_error : StorageError

unfoldable pub values : {V : Type 0} → Dict V → List V
values [] = []
values ((_, v) ∷ d) = v ∷ values d

unfoldable pub is_valid_trust_mark : TrustMarkRecord → ℕ → Bool
is_valid_trust_mark record_ valid_at =
    record_.active && (elim record_.expires_at [ none ↦ true | some e ↦ ltb valid_at e ])

abbrev pub is_greater : Sign → Bool
is_greater greater = true
is_greater _ = false

unfoldable pub is_newer_trust_mark : TrustMarkRecord → TrustMarkRecord → Bool
is_newer_trust_mark candidate current =
    ltb current.issued_at candidate.issued_at
    || (candidate.issued_at == current.issued_at
        && is_greater (compare_strings candidate.jwt current.jwt))

-- A loop that keeps the newest record of each key.
unfoldable pub latest_loop :
    (TrustMarkRecord → Str) → List TrustMarkRecord → Dict TrustMarkRecord → Dict TrustMarkRecord
latest_loop key [] latest = latest
latest_loop key (r ∷ records) latest = latest_loop key records (elim (get (key r) latest) [
  | none ↦ put (key r) r latest
  | some existing ↦ if is_newer_trust_mark r existing then put (key r) r latest else latest
])

unfoldable pub latest_by_subject : List TrustMarkRecord → List TrustMarkRecord
latest_by_subject records = values (latest_loop (λ r. r.subject) records [])

-- Valid, of the type and of the subject.
unfoldable pub matches_mark : Str → Str → ℕ → TrustMarkRecord → Bool
matches_mark type subject valid_at r =
    str_eq r.trust_mark_type type && str_eq r.subject subject && is_valid_trust_mark r valid_at

-- The comparison of `getValid` is not positive: newest first, and by the token downwards.
unfoldable pub newest_first : TrustMarkRecord → TrustMarkRecord → Bool
newest_first a b =
    if a.issued_at == b.issued_at
    then not (is_greater (compare_strings b.jwt a.jwt))
    else leb b.issued_at a.issued_at

unfoldable pub get_valid : Str → Str → ℕ → Dict TrustMarkRecord → Option TrustMarkRecord
get_valid type subject valid_at records =
    get_elem? (sort newest_first (filter (matches_mark type subject valid_at) (values records))) 0

abbrev pub get_by_jwt : Str → Dict TrustMarkRecord → Option TrustMarkRecord
get_by_jwt jwt records = get jwt records

abbrev by_subject : TrustMarkRecord → TrustMarkRecord → Bool
by_subject a b = not (is_greater (compare_strings a.subject b.subject))

abbrev by_type : TrustMarkRecord → TrustMarkRecord → Bool
by_type a b = not (is_greater (compare_strings a.trust_mark_type b.trust_mark_type))

-- The end of `listValid`: a page of the records, with the subject of the first that is left out.
unfoldable pub mark_page : ℕ → List TrustMarkRecord → TrustMarkListPage
mark_page limit records =
    if ltb limit (length records)
    then record {
      items = take limit records;
      next_cursor = elim (get_elem? records limit) [ none ↦ none | some next ↦ some next.subject ];
    }
    else record { items = records; next_cursor = none }

-- The records of `listValid` before paging.
unfoldable pub listed_marks :
    Str → ℕ → Option Str → Option Str → Dict TrustMarkRecord → List TrustMarkRecord
listed_marks type valid_at only_subject cursor records =
    let asked =
      filter
        (λ r.
          str_eq r.trust_mark_type type
          && (elim only_subject [ none ↦ true | some subject ↦ str_eq r.subject subject ])
          && is_valid_trust_mark r valid_at)
        (values records) in
    let ordered = sort by_subject (latest_by_subject asked) in
    elim cursor [ none ↦ ordered | some c ↦ filter (λ r. not (str_lt r.subject c)) ordered ]

-- `listValid`: the limit is a safe integer, so that only 0 is refused.
unfoldable pub list_valid :
    Str → ℕ → TrustMarkListOptions → Dict TrustMarkRecord → Result StorageError TrustMarkListPage
list_valid type valid_at options records =
    if options.limit == 0
    then err range_error
    else ok (
        mark_page options.limit
          (listed_marks type valid_at options.only_subject options.cursor records))

unfoldable pub list_valid_for_subject : Str → ℕ → Dict TrustMarkRecord → List TrustMarkRecord
list_valid_for_subject subject valid_at records =
    let asked =
      filter (λ r. str_eq r.subject subject && is_valid_trust_mark r valid_at) (values records) in
    sort by_type (values (latest_loop (λ r. r.trust_mark_type) asked []))

unfoldable pub has_any_valid : Str → ℕ → Dict TrustMarkRecord → Bool
has_any_valid subject valid_at records =
    any (λ r. str_eq r.subject subject && is_valid_trust_mark r valid_at) (values records)

unfoldable pub issue : TrustMarkRecord → Dict TrustMarkRecord → Dict TrustMarkRecord
issue r records = if has r.jwt records then records else put r.jwt r records

abbrev pub is_revocable : Str → Str → TrustMarkRecord → Bool
is_revocable type subject r = str_eq r.trust_mark_type type && str_eq r.subject subject && r.active

-- The loop of `revoke`: writing over the key being visited replaces its record in place.
unfoldable pub revoke_loop : Str → Str → ℕ → Dict TrustMarkRecord → Dict TrustMarkRecord
revoke_loop type subject revoked_at [] = []
revoke_loop type subject revoked_at ((jwt, r) ∷ records) =
    let rest = revoke_loop type subject revoked_at records in
    if is_revocable type subject r
    then (jwt, record r { active = false; revoked_at = some revoked_at }) ∷ rest
    else (jwt, r) ∷ rest

-- The error is thrown only where nothing was written.
unfoldable pub revoke :
    Str → Str → ℕ → Dict TrustMarkRecord → Result StorageError (Dict TrustMarkRecord)
revoke type subject revoked_at records =
    if any (is_revocable type subject) (values records)
    then ok (revoke_loop type subject revoked_at records)
    else err not_found
