-- ===== src/Authority/Events.antt =====
-- `MemorySubordinateEventStorage` of packages/authority/src/storage/memory.ts, over the histories by
-- issuer and subject. `parse` is `SubordinateEventSchema.parse`, by the schema library: `none` where
-- it throws.
use oidfed.Common.{
  Str, Dict, get, put, get-put, str_eq, str_eq_iff, ◌≡◌, refl, ap, sym, ◌∙◌, ◌&&◌, Bool-cases,
  Option-cases, Option, none, some, List, [], ◌∷◌, ◌++◌, if◌then◌else◌, inl, inr,
}

-- `xs ?? []`
abbrev or_none : {A : Type 0} → Option (List A) → List A
or_none none = []
or_none (some xs) = xs

module _ {Event : Type 0} where
  unfoldable pub list_events : Str → Str → Dict (Dict (List Event)) → List Event
  list_events issuer subject history = or_none (get subject (or_none (get issuer history)))

  unfoldable pub append_parsed :
      Str → Str → List Event → Dict (Dict (List Event)) → Dict (Dict (List Event))
  append_parsed issuer subject parsed history =
      let subjects = or_none (get issuer history) in
      put issuer (put subject (or_none (get subject subjects) ++ parsed) subjects) history

  list_events-append_parsed :
      (issuer subject issuer' subject' : Str) (parsed : List Event)
      (history : Dict (Dict (List Event)))
      → list_events issuer' subject' (append_parsed issuer subject parsed history) ≡ (
          if str_eq issuer issuer' && str_eq subject subject'
          then list_events issuer subject history ++ parsed
          else list_events issuer' subject' history)
  unfolding list_events append_parsed
  list_events-append_parsed issuer subject issuer' subject' parsed history =
      let subjects = or_none (get issuer history) in
      let longer = or_none (get subject subjects) ++ parsed in
      let written = get-put issuer issuer' (put subject longer subjects) history in
      let found = get-put subject subject' longer subjects in
      elim (Bool-cases (str_eq issuer issuer')) [
        | inr other ↦ rw (written, other) refl
        | inl same ↦
            let e : issuer ≡ issuer' = (str_eq_iff issuer issuer').0 same in
            rw (written, same)
              (elim (Bool-cases (str_eq subject subject')) [
                | inl twin ↦ rw (found, twin) refl
                | inr apart ↦
                    rw (found, apart) (ap (λ i. or_none (get subject' (or_none (get i history)))) e)
              ])
      ]

module _ {Raw Event : Type 0} (parse : Raw → Option Event) where
  -- `events.map(...)`
  unfoldable pub parse_all : List Raw → Option (List Event)
  parse_all [] = some []
  parse_all (raw ∷ raws) =
      let rest = parse_all raws in
      elim (parse raw) [
        | none ↦ none
        | some event ↦ elim rest [ none ↦ none | some events ↦ some (event ∷ events) ]
      ]

  -- `append`: `none` is the exception of an event that does not parse, before anything is written.
  unfoldable pub append :
      Str → Str → List Raw → Dict (Dict (List Event)) → Option (Dict (Dict (List Event)))
  append issuer subject raws history = elim (parse_all raws) [
    | none ↦ none
    | some parsed ↦ some (append_parsed issuer subject parsed history)
  ]

  -- After an append that succeeds, the history of the issuer and the subject is what it was followed by
  -- the parsed events, and every other history is as before.
  pub list_events-append :
      (issuer subject : Str) (raws : List Raw) (history history' : Dict (Dict (List Event)))
      → append issuer subject raws history ≡ some history'
      → (parsed : List Event) × (parse_all raws ≡ some parsed)
        × ((issuer' subject' : Str)
            → list_events issuer' subject' history' ≡ (
                if str_eq issuer issuer' && str_eq subject subject'
                then list_events issuer subject history ++ parsed
                else list_events issuer' subject' history))
  unfolding append
  list_events-append issuer subject raws history history' h = elim (Option-cases (parse_all raws)) [
    | inl bad ↦ absurd (cc (rw (bad, append) at h))
    | inr (parsed, good) ↦
        let at : some (append_parsed issuer subject parsed history) ≡ some history' =
          rw (good, append) at h in
        let e : append_parsed issuer subject parsed history ≡ history' = cc at in
        (
          parsed,
          good,
          λ i s.
              ap (list_events i s) (sym e)
              ∙ list_events-append_parsed issuer subject i s parsed history,
        )
  ]
