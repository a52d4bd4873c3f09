-- ===== src/Chain/Duplicates.antt =====
-- The search for duplicate members of a metadata policy in
-- packages/core/src/trust-chain/validate.ts: `decodeJwtPayloadJson`,
-- `findDuplicateMetadataPolicyMembers` and `addMetadataPolicyDuplicateMemberErrors`. The text is
-- scanned as the list of its code units that are left; an exception ends the search with nothing
-- found. The scanners run on fuel.
pub mod Laws
use oidfed.Common.{
  ℕ, zero, suc, ◌+◌, ◌-◌, ◌*◌, String, Str, js, str_eq, any, length, leb, Bool, true, false, not,
  ◌&&◌, ◌||◌, ◌==◌, Option, none, some, List, [], ◌∷◌, ◌++◌, map, if◌then◌else◌,
}
use oidfed.Chain.Values.{Platform}
use oidfed.Chain.Errors.{ValidationError, trust_chain_invalid, field_error}

-- What is behind the second part of a token.
abbrev before_dot : Str → Str
before_dot [] = []
before_dot (c ∷ s) = elim (c == 46) [ true ↦ [] | false ↦ c ∷ before_dot s ]

-- `jwt.split(".")[1]`, or the empty text.
unfoldable pub second_part : Str → Str
second_part [] = []
second_part (c ∷ s) = elim (c == 46) [ true ↦ before_dot s | false ↦ second_part s ]

abbrev to_base64 : ℕ → ℕ
to_base64 c = if c == 45 then 43 else if c == 95 then 47 else c

-- `padEnd(Math.ceil(length / 4) * 4, "=")`, four at a time.
unfoldable pub pad_end : Str → Str
pad_end (a ∷ b ∷ c ∷ d ∷ s) = a ∷ b ∷ c ∷ d ∷ pad_end s
pad_end (a ∷ b ∷ c ∷ []) = a ∷ b ∷ c ∷ 61 ∷ []
pad_end (a ∷ b ∷ []) = a ∷ b ∷ 61 ∷ 61 ∷ []
pad_end (a ∷ []) = a ∷ 61 ∷ 61 ∷ 61 ∷ []
pad_end [] = []

-- `/\s/`
unfoldable pub is_space : ℕ → Bool
is_space c =
    leb 9 c && leb c 13
    || leb 8192 c && leb c 8202
    || any (λ d. c == d) (32 ∷ 160 ∷ 5760 ∷ 8232 ∷ 8233 ∷ 8239 ∷ 8287 ∷ 12288 ∷ 65279 ∷ [])

unfoldable pub skip_whitespace : Str → Str
skip_whitespace [] = []
skip_whitespace (c ∷ s) = elim (is_space c) [ true ↦ skip_whitespace s | false ↦ c ∷ s ]

-- The text of a literal behind its opening quote, with what follows it; `none` if it does not end.
unfoldable pub literal : Str → Option (Str × Str)
literal [] = none
literal (c ∷ []) = if c == 34 then some (c ∷ [], []) else none
literal (c ∷ d ∷ s) =
    let escaped = literal s in
    let plain = literal (d ∷ s) in
    if c == 92
    then (elim escaped [ none ↦ none | some (text, rest) ↦ some (c ∷ d ∷ text, rest) ])
    else if c == 34
    then some (c ∷ [], d ∷ s)
    else elim plain [ none ↦ none | some (text, rest) ↦ some (c ∷ text, rest) ]

-- `/[\s,\]}]/`
abbrev ends_primitive : ℕ → Bool
ends_primitive c = is_space c || c == 44 || c == 93 || c == 125

unfoldable pub parse_primitive : Str → Str
parse_primitive [] = []
parse_primitive (c ∷ s) = elim (ends_primitive c) [ true ↦ c ∷ s | false ↦ parse_primitive s ]

-- What a scanner comes to: no fuel, an exception, or the rest of the text and the duplicates.
pub data Scan : Type 0 where
  out_of_fuel thrown : Scan
  scanned : Str → List Str → Scan

abbrev pub then_scan : Scan → (Str → List Str → Scan) → Scan
then_scan out_of_fuel next = out_of_fuel
then_scan thrown next = thrown
then_scan (scanned rest duplicates) next = next rest duplicates

-- The duplicates of what comes first stand first.
abbrev pub behind : List Str → Scan → Scan
behind duplicates out_of_fuel = out_of_fuel
behind duplicates thrown = thrown
behind duplicates (scanned rest more) = scanned rest (duplicates ++ more)

unfoldable pub should_check_object : List Str → Bool
should_check_object [] = false
should_check_object (top ∷ path) = str_eq top (js "metadata_policy") && leb (length path) 2

-- `[...path, key].join(".")`
unfoldable pub duplicate_path : List Str → Str → Str
duplicate_path [] key = key
duplicate_path (p ∷ path) key = p ++ 46 ∷ duplicate_path path key

-- A member's name that was seen.
abbrev pub noted : List Str → List Str → Str → List Str
noted path seen key =
    if should_check_object path && any (str_eq key) seen then duplicate_path path key ∷ [] else []

-- What there is to scan: a value, the elements of an array or the members of an object, each with
-- its path, and the members with the names that were seen.
pub data Task : Type 0 where
  value elements : List Str → Task
  members : List Str → List Str → Task

module _ (parse_literal : Str → Option Str) where
  -- `parseString` behind the opening quote.
  abbrev pub parse_string : Str → (Str → Str → Scan) → Scan
  parse_string s next = elim (literal s) [
    | none ↦ thrown
    | some (text, rest) ↦ elim (parse_literal (34 ∷ text)) [
      | none ↦ thrown
      | some key ↦ next key rest
    ]
  ]

  -- The scanners, where `again` is the scanner with less fuel.
  module _ (again : Task → Str → Scan) where
    unfoldable pub parse_array : List Str → Str → Scan
    parse_array path [] = scanned [] []
    parse_array path (c ∷ s) = if c == 93 then scanned s [] else again (elements path) (c ∷ s)

    unfoldable pub parse_object : List Str → Str → Scan
    parse_object path [] = scanned [] []
    parse_object path (c ∷ s) = if c == 125 then scanned s [] else again (members path []) (c ∷ s)

    -- By the first unit.
    unfoldable pub parse_value : List Str → Str → Scan
    parse_value path [] = scanned [] []
    parse_value path (c ∷ s) =
        if c == 123
        then parse_object path (skip_whitespace s)
        else if c == 91
        then parse_array path (skip_whitespace s)
        else if c == 34
        then parse_string s (λ key rest. scanned rest [])
        else scanned (parse_primitive (c ∷ s)) []

    -- Behind an element.
    unfoldable pub next_element : List Str → Str → Scan
    next_element path [] = thrown
    next_element path (c ∷ s) =
        if c == 93
        then scanned s []
        else if c == 44
        then again (elements path) (skip_whitespace s)
        else thrown

    -- The loop over the elements.
    unfoldable pub parse_elements : List Str → Str → Scan
    parse_elements path [] = scanned [] []
    parse_elements path (c ∷ s) =
        then_scan (again (value path) (c ∷ s))
          (λ rest duplicates. behind duplicates (next_element path (skip_whitespace rest)))

    -- Behind a member.
    unfoldable pub next_member : List Str → List Str → Str → Scan
    next_member path seen [] = thrown
    next_member path seen (c ∷ s) =
        if c == 125
        then scanned s []
        else if c == 44
        then again (members path seen) (skip_whitespace s)
        else thrown

    -- Behind a member's name.
    unfoldable pub parse_member : List Str → List Str → Str → Str → Scan
    parse_member path seen key [] = thrown
    parse_member path seen key (c ∷ s) =
        if c == 58
        then then_scan (again (value (path ++ key ∷ [])) (skip_whitespace s))
            (λ rest duplicates. behind duplicates (next_member path seen (skip_whitespace rest)))
        else thrown

    -- The loop over the members.
    unfoldable pub parse_members : List Str → List Str → Str → Scan
    parse_members path seen [] = scanned [] []
    parse_members path seen (c ∷ s) =
        if c == 34
        then parse_string s (λ key rest.
          behind (noted path seen key) (parse_member path (key ∷ seen) key (skip_whitespace rest)))
        else thrown

    unfoldable pub step : Task → Str → Scan
    step (value path) s = parse_value path (skip_whitespace s)
    step (elements path) s = parse_elements path s
    step (members path seen) s = parse_members path seen s

  unfoldable pub scan : ℕ → Task → Str → Scan
  unfolding step
  scan zero task s = out_of_fuel
  scan (suc fuel) task s = step (scan fuel) task s

  -- More fuel than the scanners take.
  abbrev pub enough : Str → ℕ
  enough s = suc (length s + length s)

  abbrev pub found : Scan → List Str
  found (scanned rest duplicates) = duplicates
  found _ = []

  unfoldable pub find_duplicate_metadata_policy_members : Str → List Str
  find_duplicate_metadata_policy_members json = found (scan (enough json) (value []) json)

-- An empty text is no text.
unfoldable pub decode_jwt_payload_json : Platform → Str → Option Str
decode_jwt_payload_json platform jwt = elim (second_part jwt) [
  | [] ↦ none
  | c ∷ s ↦ platform.decode_base64 (pad_end (map to_base64 (c ∷ s)))
]

unfoldable pub add_metadata_policy_duplicate_member_errors :
    Platform → Str → ℕ → List ValidationError
add_metadata_policy_duplicate_member_errors platform jwt j =
    elim (decode_jwt_payload_json platform jwt) [
      | none ↦ []
      | some [] ↦ []
      | some (c ∷ s) ↦
          map (λ (duplicate : Str). field_error trust_chain_invalid j (js "metadata_policy") 19)
            (find_duplicate_metadata_policy_members platform.parse_literal (c ∷ s))
    ]
