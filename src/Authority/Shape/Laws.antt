-- ===== src/Authority/Shape/Laws.antt =====
-- What sanitizing leaves of metadata, and which `crit` arrays are accepted.
use oidfed.Common.{
  Str, js, Dict, get, put, get-put, str_eq, str_eq_iff, inl, inr, ◌≡◌, refl, ap, sym, ◌∙◌, true,
  false, Bool-cases, Option, none, some, [], ◌∷◌, if◌then◌else◌,
}
use oidfed.Json.{fields, Json, null, bool, num, str, arr, obj, Fields, entries}
use oidfed.Authority.Shape.{
  is_federation_entity_operational_field, filter_claims, sanitize_block, sanitize_loop,
  sanitize_subordinate_metadata,
}

-- The claim that a block keeps under a key.
filter_claims_lem :
    (claims filtered : Dict Json) (k : Str)
    → is_federation_entity_operational_field k ≡ true
    → get k (filter_claims claims filtered) ≡ get k filtered
unfolding filter_claims
filter_claims_lem [] filtered k op = refl
filter_claims_lem ((j, v) ∷ claims) filtered k op =
    elim (Bool-cases (is_federation_entity_operational_field j)) [
      | inl hit ↦ rw hit (filter_claims_lem claims filtered k op)
      | inr miss ↦
          let apart : str_eq j k ≡ false = elim (Bool-cases (str_eq j k)) [
            | inr e ↦ e
            | inl e ↦
                let j≡k : j ≡ k = (str_eq_iff j k).0 e in
                let op' : is_federation_entity_operational_field j ≡ true = rw j≡k op in
                absurd (cc (op', miss))
          ] in
          rw miss (
            filter_claims_lem claims (put j v filtered) k op
            ∙ (get-put j k v filtered ∙ rw apart refl))
    ]

entries-fields : (d : Dict Json) → entries (fields d) ≡ d
unfolding entries fields
entries-fields [] = refl
entries-fields ((k, v) ∷ d) = ap (λ rest. (k, v) ∷ rest) (entries-fields d)

-- A metadata value is clean: it is no object, or an object without operational fields.
abbrev pub IsClean : Json → Type 0
IsClean (obj block) =
    (k : Str) → is_federation_entity_operational_field k ≡ true → get k (entries block) ≡ none
IsClean _ = Unit

-- The block of the federation entity, where there is one, is clean.
abbrev pub HasCleanBlock : Dict Json → Type 0
HasCleanBlock d = (v : Json) → get (js "federation_entity") d ≡ some v → IsClean v

put-HasCleanBlock :
    (k : Str) (v : Json) (d : Dict Json)
    → (str_eq k (js "federation_entity") ≡ true → IsClean v)
    → HasCleanBlock d
    → HasCleanBlock (put k v d)
put-HasCleanBlock k v d clean h w found = elim (Bool-cases (str_eq k (js "federation_entity"))) [
  | inl same ↦
      let at : (if str_eq k (js "federation_entity")
            then some v
            else get (js "federation_entity") d)
          ≡ some w =
        sym (get-put k (js "federation_entity") v d) ∙ found in
      let now : some v ≡ some w = rw same at at in let e : v ≡ w = cc now in rw (← e) (clean same)
  | inr other ↦
      let at : (if str_eq k (js "federation_entity")
            then some v
            else get (js "federation_entity") d)
          ≡ some w =
        sym (get-put k (js "federation_entity") v d) ∙ found in
      h w (rw other at at)
]

filtered-IsClean :
    (block : Fields) (c : Str × Json) (cs : Dict Json)
    → filter_claims (entries block) [] ≡ c ∷ cs
    → IsClean (obj (fields (c ∷ cs)))
unfolding get
filtered-IsClean block c cs e k op =
    ap (get k) (entries-fields (c ∷ cs))
    ∙ (ap (get k) (sym e) ∙ filter_claims_lem (entries block) [] k op)

sanitize_obj :
    (entity_type : Str) (block : Fields) (result kept : Dict Json)
    → filter_claims (entries block) [] ≡ kept
    → HasCleanBlock result
    → HasCleanBlock
        (elim kept [ [] ↦ result | c ∷ cs ↦ put entity_type (obj (fields (c ∷ cs))) result ])
sanitize_obj entity_type block result [] e h = h
sanitize_obj entity_type block result (c ∷ cs) e h =
    put-HasCleanBlock entity_type (obj (fields (c ∷ cs))) result
      (λ _. filtered-IsClean block c cs e) h

-- The round at the block of the federation entity.
sanitize_here :
    (entity_type : Str) (claims : Json) (result : Dict Json)
    → HasCleanBlock result
    → HasCleanBlock (elim claims [
      | obj block ↦ elim (filter_claims (entries block) []) [
        | [] ↦ result
        | c ∷ cs ↦ put entity_type (obj (fields (c ∷ cs))) result
      ]
      | other ↦ put entity_type other result
    ])
sanitize_here entity_type null result h = put-HasCleanBlock entity_type null result (λ _. tt) h
sanitize_here entity_type (bool b) result h =
    put-HasCleanBlock entity_type (bool b) result (λ _. tt) h
sanitize_here entity_type (num n) result h =
    put-HasCleanBlock entity_type (num n) result (λ _. tt) h
sanitize_here entity_type (str s) result h =
    put-HasCleanBlock entity_type (str s) result (λ _. tt) h
sanitize_here entity_type (arr vs) result h =
    put-HasCleanBlock entity_type (arr vs) result (λ _. tt) h
sanitize_here entity_type (obj block) result h =
    sanitize_obj entity_type block result (filter_claims (entries block) []) refl h

sanitize_block-HasCleanBlock :
    (entity_type : Str) (claims : Json) (result : Dict Json)
    → HasCleanBlock result
    → HasCleanBlock (sanitize_block entity_type claims result)
unfolding sanitize_block
sanitize_block-HasCleanBlock entity_type claims result h =
    elim (Bool-cases (str_eq entity_type (js "federation_entity"))) [
      | inr other ↦
          rw other (put-HasCleanBlock entity_type claims result (λ e. absurd (cc (e, other))) h)
      | inl here ↦ rw here (sanitize_here entity_type claims result h)
    ]

sanitize_loop-HasCleanBlock :
    (metadata result : Dict Json)
    → HasCleanBlock result
    → HasCleanBlock (sanitize_loop metadata result)
unfolding sanitize_loop
sanitize_loop-HasCleanBlock [] result h = h
sanitize_loop-HasCleanBlock ((t, v) ∷ metadata) result h =
    sanitize_loop-HasCleanBlock metadata (sanitize_block t v result)
      (sanitize_block-HasCleanBlock t v result h)

some_of_loop : (d e : Dict Json) → (elim d [ [] ↦ none | c ∷ cs ↦ some (c ∷ cs) ]) ≡ some e → d ≡ e
some_of_loop [] e h = cc
some_of_loop (c ∷ cs) e h = cc

-- Sanitized metadata carries no operational field in its federation_entity block.
pub sanitize_subordinate_metadata-HasCleanBlock :
    (metadata : Option (Dict Json)) (result : Dict Json)
    → sanitize_subordinate_metadata metadata ≡ some result
    → HasCleanBlock result
unfolding sanitize_subordinate_metadata get
sanitize_subordinate_metadata-HasCleanBlock none result h = cc
sanitize_subordinate_metadata-HasCleanBlock (some metadata) result h =
    rw (← some_of_loop (sanitize_loop metadata []) result h)
      (sanitize_loop-HasCleanBlock metadata [] (λ v e. absurd (cc e)))
