-- ===== src/Authority/Marks/Laws.antt =====
-- What the trust mark storage answers, and what revocation and issuance leave.
use oidfed.Common.{
  ℕ, Str, Dict, get, str_eq, str_eq_iff, str_eq_refl, get_elem?, filter, In-filter, filter_intro,
  any_intro, any-witness, In, inl, inr, ◌⊎◌, ltb, ◌==◌, ◌≡◌, ◌↔◌, refl, ap, sym, ◌∙◌, true, false,
  not, ◌&&◌, ◌||◌, Bool-cases, none, some, List, [], ◌∷◌, arith, if◌then◌else◌, ok,
}
use oidfed.Authority.Order.{
  str_lt, str_lt_irrefl, str_lt_trans, not_lt_trans, compare_strings, sort, In-sort, sort_intro,
  IsSorted, sort-IsSorted,
}
use oidfed.Authority.Marks.{
  TrustMarkRecord, values, is_valid_trust_mark, is_newer_trust_mark, matches_mark, newest_first,
  get_valid, has_any_valid, issue, is_revocable, revoke_loop, revoke,
}

newest_first_total : (a b : TrustMarkRecord) → newest_first a b ≡ false → newest_first b a ≡ true
unfolding newest_first compare_strings
newest_first_total a b h = ground (arith, str_lt_trans a.jwt b.jwt a.jwt, str_lt_irrefl a.jwt)

newest_first_newer :
    (a b : TrustMarkRecord) → newest_first a b ≡ true → is_newer_trust_mark b a ≡ false
unfolding newest_first is_newer_trust_mark compare_strings
newest_first_newer a b h = ground (arith, h)

-- For the tokens, `a` is not less than `b`.
newest_first_iff :
    (a b : TrustMarkRecord)
    → newest_first a b
      ≡ (ltb b.issued_at a.issued_at || (a.issued_at == b.issued_at && not (str_lt a.jwt b.jwt)))
unfolding newest_first compare_strings
newest_first_iff a b = ground (arith, str_lt_trans a.jwt b.jwt a.jwt, str_lt_irrefl a.jwt)

newest_first_trans :
    (a b c : TrustMarkRecord)
    → newest_first a b ≡ true
    → newest_first b c ≡ true
    → newest_first a c ≡ true
newest_first_trans a b c h k =
    let h' = sym (newest_first_iff a b) ∙ h in
    let k' = sym (newest_first_iff b c) ∙ k in
    newest_first_iff a c ∙ ground (arith, h', k', not_lt_trans a.jwt b.jwt c.jwt)

-- The head of a sorted list.
head-newest :
    (xs : List TrustMarkRecord) (r : TrustMarkRecord)
    → IsSorted newest_first xs
    → get_elem? xs 0 ≡ some r
    → In r xs × ((m : TrustMarkRecord) → In m xs → (m ≡ r) ⊎ (newest_first r m ≡ true))
head-newest [] r s h = absurd (cc h)
head-newest (x ∷ xs) r s h =
    let e : x ≡ r = cc h in
    (inl (sym e), λ m k. elim k [ inl q ↦ inl (q ∙ e) | inr n ↦ inr (rw (← e) (s.0 m n)) ])

is_newer_irrefl : (r : TrustMarkRecord) → is_newer_trust_mark r r ≡ false
unfolding is_newer_trust_mark compare_strings
is_newer_irrefl r = ground (arith, str_lt_irrefl r.jwt)

-- A mark of the type and the subject that is valid at the time and that no other such mark follows.
pub record IsNewestValid (type subject : Str) (valid_at : ℕ) (records : Dict TrustMarkRecord)
    (r : TrustMarkRecord) : Type 0 where
  pub stored : In r (values records)
  pub matches : matches_mark type subject valid_at r ≡ true
  pub newest :
      (m : TrustMarkRecord)
      → In m (values records)
      → matches_mark type subject valid_at m ≡ true
      → is_newer_trust_mark m r ≡ false

-- The mark found for a type and a subject is stored, is valid at the time, and is one than which no
-- valid mark of that type and subject is newer.
pub get_valid-IsNewestValid :
    (type subject : Str) (valid_at : ℕ) (records : Dict TrustMarkRecord) (r : TrustMarkRecord)
    → get_valid type subject valid_at records ≡ some r
    → IsNewestValid type subject valid_at records r
unfolding get_valid
get_valid-IsNewestValid type subject valid_at records r h =
    let p = matches_mark type subject valid_at in
    let found = filter p (values records) in
    let (first, least) =
      head-newest (sort newest_first found) r
        (sort-IsSorted newest_first newest_first_total newest_first_trans found) h in
    let (stored, good) = In-filter p r (values records) (In-sort newest_first r found first) in
    record {
      stored = stored;
      matches = good;
      newest = λ m k ok_.
          elim (least m
            (sort_intro newest_first m found (filter_intro p m (values records) k ok_))) [
              | inl e ↦ rw e (is_newer_irrefl r)
              | inr before ↦ newest_first_newer r m before
            ];
    }

head-some : {A : Type 0} (x : A) (xs : List A) → In x xs → (y : A) × (get_elem? xs 0 ≡ some y)
head-some x [] m = absurd m
head-some x (y ∷ ys) m = (y, refl)

-- Where a valid mark of the type and the subject is stored, one is found.
pub get_valid_found :
    (type subject : Str) (valid_at : ℕ) (records : Dict TrustMarkRecord) (m : TrustMarkRecord)
    → In m (values records)
    → matches_mark type subject valid_at m ≡ true
    → (r : TrustMarkRecord) × (get_valid type subject valid_at records ≡ some r)
unfolding get_valid
get_valid_found type subject valid_at records m k good = head-some m _ (
    sort_intro newest_first m _
      (filter_intro (matches_mark type subject valid_at) m (values records) k good))

-- The records after a revocation: none of the type and the subject is active.
revoke_loop_inactive :
    (type subject : Str) (revoked_at : ℕ) (records : Dict TrustMarkRecord) (valid_at : ℕ)
    → filter
        (matches_mark type subject valid_at)
        (values (revoke_loop type subject revoked_at records))
      ≡ []
unfolding revoke_loop values matches_mark is_valid_trust_mark
revoke_loop_inactive type subject revoked_at [] valid_at = refl
revoke_loop_inactive type subject revoked_at ((jwt, r) ∷ records) valid_at =
    ground (arith, revoke_loop_inactive type subject revoked_at records valid_at)

-- A mark of another type or subject is seen as before.
revoke_loop_other :
    (type subject type' subject' : Str) (revoked_at : ℕ) (records : Dict TrustMarkRecord)
    (valid_at : ℕ)
    → (type ≡ type' → subject ≡ subject' → ⊥)
    → filter
        (matches_mark type' subject' valid_at)
        (values (revoke_loop type subject revoked_at records))
      ≡ filter (matches_mark type' subject' valid_at) (values records)
unfolding revoke_loop values matches_mark is_valid_trust_mark
revoke_loop_other type subject type' subject' revoked_at [] valid_at other = refl
revoke_loop_other type subject type' subject' revoked_at ((jwt, r) ∷ records) valid_at other =
    ground (
      arith,
      revoke_loop_other type subject type' subject' revoked_at records valid_at other,
      str_eq_iff r.trust_mark_type type,
      str_eq_iff r.trust_mark_type type',
      str_eq_iff r.subject subject,
      str_eq_iff r.subject subject',
    )

revoke_eq :
    (type subject : Str) (revoked_at : ℕ) (records records' : Dict TrustMarkRecord)
    → revoke type subject revoked_at records ≡ ok records'
    → records' ≡ revoke_loop type subject revoked_at records
unfolding revoke
revoke_eq type subject revoked_at records records' h = ground (arith, h)

-- After a revocation that succeeds no mark of the type and the subject is found, at whatever time, and
-- for every other type or subject the same mark is found as before.
pub revoke-get_valid :
    (type subject : Str) (revoked_at : ℕ) (records records' : Dict TrustMarkRecord)
    → revoke type subject revoked_at records ≡ ok records'
    → (type' subject' : Str) (valid_at : ℕ)
    → get_valid type' subject' valid_at records' ≡ (
        if str_eq type type' && str_eq subject subject'
        then none
        else get_valid type' subject' valid_at records)
unfolding get_valid sort
revoke-get_valid type subject revoked_at records records' h type' subject' valid_at =
    let e = revoke_eq type subject revoked_at records records' h in
    elim (Bool-cases (str_eq type type' && str_eq subject subject')) [
      | inl same ↦
          let t : type ≡ type' = ground (arith, str_eq_iff type type') in
          let s : subject ≡ subject' = ground (arith, str_eq_iff subject subject') in
          rw (same, e, ← t, ← s)
            (ap (λ found. get_elem? (sort newest_first found) 0)
              (revoke_loop_inactive type subject revoked_at records valid_at))
      | inr other ↦
          let apart : type ≡ type' → subject ≡ subject' → ⊥ =
            λ t s. ground (arith, str_eq_iff type type', str_eq_iff subject subject') in
          rw (other, e)
            (ap (λ found. get_elem? (sort newest_first found) 0)
              (revoke_loop_other type subject type' subject' revoked_at records valid_at apart))
    ]

-- Revocation succeeds exactly if an active mark of the type and the subject is stored.
pub revoke_iff :
    (type subject : Str) (revoked_at : ℕ) (records : Dict TrustMarkRecord)
    → ((records' : Dict TrustMarkRecord) × (revoke type subject revoked_at records ≡ ok records'))
      ↔ ((r : TrustMarkRecord) × In r (values records) × (is_revocable type subject r ≡ true))
unfolding revoke
revoke_iff type subject revoked_at records = (
  λ (records', h). any-witness (is_revocable type subject) (values records) (ground (arith, h)),
  λ (r, m, e). (
    revoke_loop type subject revoked_at records,
    rw (any_intro (is_revocable type subject) r (values records) m e) refl,
  ),
)

-- A stored mark of the type and the subject is stored inactive after a revocation.
revoke_loop-get :
    (type subject : Str) (revoked_at : ℕ) (records : Dict TrustMarkRecord) (jwt : Str)
    (old : TrustMarkRecord)
    → get jwt records ≡ some old
    → old.trust_mark_type ≡ type
    → old.subject ≡ subject
    → (now : TrustMarkRecord) × (get jwt (revoke_loop type subject revoked_at records) ≡ some now)
      × (now.active ≡ false)
unfolding revoke_loop get
revoke_loop-get type subject revoked_at [] jwt old found t s = absurd (cc found)
revoke_loop-get type subject revoked_at ((j, r) ∷ records) jwt old found t s =
    elim (Bool-cases (str_eq j jwt)) [
      | inr e ↦
          let (now, there, off) =
            revoke_loop-get type subject revoked_at records jwt old (ground (arith, found, e)) t
              s in
          (now, ground (arith, there, e), off)
      | inl e ↦
          let same : r ≡ old = ground (arith, found, e) in
          elim (Bool-cases (is_revocable type subject r)) [
            | inl off ↦ (
              record r { active = false; revoked_at = some revoked_at },
              ground (arith, off, e),
              refl,
            )
            | inr on ↦
                let of_type : str_eq r.trust_mark_type type ≡ true =
                  rw (same, t) (str_eq_refl type) in
                let of_subject : str_eq r.subject subject ≡ true =
                  rw (same, s) (str_eq_refl subject) in
                (r, ground (arith, on, e), ground (arith, on, of_type, of_subject))
          ]
    ]

-- If a revocation succeeds, then issuing a token again that was stored for the revoked type and
-- subject does not undo it: the token is stored and inactive, and no mark of that type and subject
-- is found, at whatever time.
pub issue-revoke :
    (type subject : Str) (revoked_at : ℕ) (records records' : Dict TrustMarkRecord)
    (r old : TrustMarkRecord)
    → revoke type subject revoked_at records ≡ ok records'
    → get r.jwt records ≡ some old
    → old.trust_mark_type ≡ type
    → old.subject ≡ subject
    → ((now : TrustMarkRecord) × (get r.jwt (issue r records') ≡ some now) × (now.active ≡ false))
      × ((valid_at : ℕ) → get_valid type subject valid_at (issue r records') ≡ none)
unfolding issue
issue-revoke type subject revoked_at records records' r old h stored t s =
    let e = revoke_eq type subject revoked_at records records' h in
    let (now, there, off) = revoke_loop-get type subject revoked_at records r.jwt old stored t s in
    let at : get r.jwt records' ≡ some now = rw e there in
    let unchanged : issue r records' ≡ records' = rw at refl in
    (
      (now, rw unchanged at, off),
      λ valid_at. rw unchanged (
          revoke-get_valid type subject revoked_at records records' h type subject valid_at
          ∙ rw (str_eq_refl type, str_eq_refl subject) refl),
    )

-- A subject has a valid mark exactly if for some type one is found.
pub has_any_valid_iff :
    (subject : Str) (valid_at : ℕ) (records : Dict TrustMarkRecord)
    → (has_any_valid subject valid_at records ≡ true)
      ↔ ((type : Str) × (r : TrustMarkRecord) × (get_valid type subject valid_at records ≡ some r))
unfolding has_any_valid matches_mark
has_any_valid_iff subject valid_at records = (
  λ h.
      let (m, k, e) =
        any-witness (λ r. str_eq r.subject subject && is_valid_trust_mark r valid_at)
          (values records) h in
      let (r, found) =
        get_valid_found m.trust_mark_type subject valid_at records m k
          (ground (arith, e, str_eq_refl m.trust_mark_type)) in
      (m.trust_mark_type, r, found),
  λ (type, r, h).
      let found = get_valid-IsNewestValid type subject valid_at records r h in
      let good = found.matches in
      any_intro (λ r. str_eq r.subject subject && is_valid_trust_mark r valid_at) r (values records)
        found.stored (ground (arith, good)),
)
