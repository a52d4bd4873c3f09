-- ===== src/Constraints/Laws.antt =====
-- What the constraint checks accept.
use oidfed.Common.{
  ℕ, zero, suc, ◌+◌, ◌<◌, ◌≤◌, Str, js, str_eq_iff, starts_with, ends_with→eq, ends_with-append,
  get_elem?, any, any-witness, any_intro, In, ◌==◌, ==_iff, ◌≡◌, ◌≢◌, refl, ◌↔◌, inl, inr, true,
  false, Option, some, List, ◌++◌, arith, Bool-cases, Option-cases, if◌then◌else◌, ok,
}
use oidfed.Constraints.{
  NamingConstraints, TrustChainConstraints, check_max_path_length, matches_domain_pattern,
  check_hostname, check_naming_constraints, check_entry, check_names, check_constraints,
}

-- The host name is the pattern, or, for a pattern that starts with a dot, ends in it.
abbrev pub InDomain : Str → Str → Type 0
InDomain host pattern =
    if starts_with pattern (js ".")
    then ((front : Str) × (host ≡ front ++ pattern))
    else (host ≡ pattern)

pub matches_domain_pattern_iff :
    (host pattern : Str) → (matches_domain_pattern host pattern ≡ true) ↔ InDomain host pattern
unfolding matches_domain_pattern
matches_domain_pattern_iff host pattern = elim (Bool-cases (starts_with pattern (js "."))) [
  | inl dot ↦
      rw dot (ends_with→eq host pattern, λ (front, same). rw same (ends_with-append front pattern))
  | inr name ↦ rw name (str_eq_iff host pattern)
]

-- Some pattern of the list covers the host name.
abbrev pub Covers : List Str → Str → Type 0
Covers patterns host = (pattern : Str) × In pattern patterns × InDomain host pattern

any_iff :
    (patterns : List Str) (host : Str)
    → (any (matches_domain_pattern host) patterns ≡ true) ↔ Covers patterns host
any_iff patterns host = (
  (λ h.
      let (p, m, e) = any-witness (matches_domain_pattern host) patterns h in
      (p, m, (matches_domain_pattern_iff host p).0 e)),
  λ (p, m, d).
      any_intro (matches_domain_pattern host) p patterns m
        ((matches_domain_pattern_iff host p).1 d),
)

-- A host name is admitted: no excluded pattern covers it, and some permitted one does if there is a
-- list of these.
pub record IsAdmitted (naming : NamingConstraints) (host : Str) : Type 0 where
  pub not_excluded :
      (patterns : List Str) → naming.excluded ≡ some patterns → Covers patterns host → ⊥
  pub is_permitted : (patterns : List Str) → naming.permitted ≡ some patterns → Covers patterns host

check_hostname_refused :
    (naming : NamingConstraints) (host : Str) (ps : List Str)
    → naming.excluded ≡ some ps
    → any (matches_domain_pattern host) ps ≡ true
    → check_hostname naming host ≡ true
    → ⊥
unfolding check_hostname
check_hostname_refused naming host ps e hit h = ground arith

check_hostname_permitted :
    (naming : NamingConstraints) (host : Str) (ps : List Str)
    → naming.permitted ≡ some ps
    → check_hostname naming host ≡ true
    → any (matches_domain_pattern host) ps ≡ true
unfolding check_hostname
check_hostname_permitted naming host ps e h = ground arith

check_hostname_intro :
    (naming : NamingConstraints) (host : Str)
    → ((ps : List Str) → naming.excluded ≡ some ps → any (matches_domain_pattern host) ps ≡ false)
    → ((ps : List Str) → naming.permitted ≡ some ps → any (matches_domain_pattern host) ps ≡ true)
    → check_hostname naming host ≡ true
unfolding check_hostname
check_hostname_intro naming host h k = elim (Option-cases naming.excluded) [
  | inl e ↦ elim (Option-cases naming.permitted) [
    | inl p ↦ ground arith
    | inr (ps, p) ↦ ground (arith, k ps p)
  ]
  | inr (xs, e) ↦ elim (Option-cases naming.permitted) [
    | inl p ↦ ground (arith, h xs e)
    | inr (ps, p) ↦ ground (arith, h xs e, k ps p)
  ]
]

-- A host name passes exactly if no excluded pattern covers it and, where there is a list of
-- permitted patterns, one of these does: exclusion overrides permission.
pub check_hostname_iff :
    (naming : NamingConstraints) (host : Str)
    → (check_hostname naming host ≡ true) ↔ IsAdmitted naming host
check_hostname_iff naming host = (
  λ h. record {
    not_excluded = λ ps e c. check_hostname_refused naming host ps e ((any_iff ps host).1 c) h;
    is_permitted = λ ps e. (any_iff ps host).0 (check_hostname_permitted naming host ps e h);
  },
  λ a.
      check_hostname_intro naming host
        (λ ps e. elim (Bool-cases (any (matches_domain_pattern host) ps)) [
          | inl hit ↦ absurd (a.not_excluded ps e ((any_iff ps host).0 hit))
          | inr miss ↦ miss
        ])
        (λ ps e. (any_iff ps host).1 (a.is_permitted ps e)),
)

module _ (hostname : Str → Option Str) where
  -- The subject at the place has a host name that is admitted.
  abbrev pub AdmittedAt : NamingConstraints → List Str → ℕ → Type 0
  AdmittedAt naming subjects i =
      (subject : Str) × (get_elem? subjects i ≡ some subject)
      × ((host : Str) × (hostname subject ≡ some host) × IsAdmitted naming host)

  -- What the constraints at a place of the chain demand of the subjects below it.
  pub record IsWithin (constraints : TrustChainConstraints) (position : ℕ) (subjects : List Str)
      : Type 0 where
    pub path_length : (max : ℕ) → constraints.max_path_length ≡ some max → position ≤ max + 1
    pub names :
        (naming : NamingConstraints)
        → constraints.naming_constraints ≡ some naming
        → (j : ℕ) → j < position
        → AdmittedAt naming subjects j

  check_entry_iff :
      (naming : NamingConstraints) (subjects : List Str) (i : ℕ)
      → (check_entry hostname naming subjects i ≡ ok tt) ↔ AdmittedAt naming subjects i
  unfolding check_naming_constraints
  check_entry_iff naming subjects i = elim (Option-cases (get_elem? subjects i)) [
    | inl missing ↦
        (λ h. absurd (ground (arith, missing)), λ (s, at, _). absurd (ground (arith, missing, at)))
    | inr (subject, found) ↦ elim (Option-cases (hostname subject)) [
      | inl bad ↦ (
        λ h. absurd (ground (arith, found, bad)),
        λ (s, at, (host, parsed, a)).
            let same : s ≡ subject = cc (at, found) in
            let parsed' : hostname subject ≡ some host = rw same at parsed in
            absurd (cc (bad, parsed')),
      )
      | inr (host, good) ↦ (
        λ h. (
          subject,
          found,
          (host, good, (check_hostname_iff naming host).0 (ground (arith, found, good))),
        ),
        λ (s, at, (host', parsed, a)).
            let same : s ≡ subject = cc (at, found) in
            let parsed' : hostname subject ≡ some host' = rw same at parsed in
            let same_host : host' ≡ host = cc (parsed', good) in
            let a' : IsAdmitted naming host = rw same_host at a in
            let passes = (check_hostname_iff naming host).1 a' in
            ground (arith, found, good, passes),
      )
    ]
  ]

  check_names_first :
      (naming : NamingConstraints) (subjects : List Str) (i rounds : ℕ)
      → check_names hostname naming subjects i (suc rounds) ≡ ok tt
      → check_entry hostname naming subjects i ≡ ok tt
  unfolding check_names
  check_names_first naming subjects i rounds h = ground (arith, h)

  check_names_rest :
      (naming : NamingConstraints) (subjects : List Str) (i rounds : ℕ)
      → check_names hostname naming subjects i (suc rounds) ≡ ok tt
      → check_names hostname naming subjects (i + 1) rounds ≡ ok tt
  unfolding check_names
  check_names_rest naming subjects i rounds h = ground (arith, h)

  check_names_both :
      (naming : NamingConstraints) (subjects : List Str) (i rounds : ℕ)
      → check_entry hostname naming subjects i ≡ ok tt
      → check_names hostname naming subjects (i + 1) rounds ≡ ok tt
      → check_names hostname naming subjects i (suc rounds) ≡ ok tt
  unfolding check_names
  check_names_both naming subjects i rounds h k = ground (arith, h, k)

  check_names_iff :
      (naming : NamingConstraints) (subjects : List Str) (i rounds : ℕ)
      → (check_names hostname naming subjects i rounds ≡ ok tt)
        ↔ ((j : ℕ) → i ≤ j → j < i + rounds → AdmittedAt naming subjects j)
  unfolding check_names
  check_names_iff naming subjects i zero = (λ h j le lt. absurd (omega arith), λ h. refl)
  check_names_iff naming subjects i (suc rounds) =
      let ih = check_names_iff naming subjects (i + 1) rounds in
      let first = check_entry_iff naming subjects i in
      (
        λ h j le lt. elim (Bool-cases (j == i)) [
          | inl same ↦
              let e : j ≡ i = (==_iff j i).0 same in
              rw e (first.0 (check_names_first naming subjects i rounds h))
          | inr other ↦
              let ne : j ≢ i = λ e. cc (other, (==_iff j i).1 e) in
              ih.0 (check_names_rest naming subjects i rounds h) j (omega (arith, ne)) (omega arith)
        ],
        λ h.
            check_names_both naming subjects i rounds (first.1 (h i (omega arith) (omega arith)))
              (ih.1 (λ j le lt. h j (omega arith) (omega arith))),
      )

  check_constraints_length :
      (constraints : TrustChainConstraints) (position : ℕ) (subjects : List Str)
      (chain_length max : ℕ)
      → constraints.max_path_length ≡ some max
      → check_constraints hostname constraints position subjects chain_length ≡ ok tt
      → position ≤ max + 1
  unfolding check_constraints check_max_path_length
  check_constraints_length constraints position subjects chain_length max e h = ground (arith, e, h)

  check_constraints_names :
      (constraints : TrustChainConstraints) (position : ℕ) (subjects : List Str) (chain_length : ℕ)
      (naming : NamingConstraints)
      → constraints.naming_constraints ≡ some naming
      → check_constraints hostname constraints position subjects chain_length ≡ ok tt
      → check_names hostname naming subjects 0 position ≡ ok tt
  unfolding check_constraints
  check_constraints_names constraints position subjects chain_length naming e h =
      ground (arith, e, h)

  -- A chain is accepted exactly if the constraining statement stands no higher than its longest path
  -- allows and the subject of every statement below it is admitted by the naming constraints.
  pub check_constraints_iff :
      (constraints : TrustChainConstraints) (position : ℕ) (subjects : List Str) (chain_length : ℕ)
      → (check_constraints hostname constraints position subjects chain_length ≡ ok tt)
        ↔ IsWithin constraints position subjects
  unfolding check_constraints check_max_path_length
  check_constraints_iff constraints position subjects chain_length = (
    λ h. record {
      path_length =
          λ max e. check_constraints_length constraints position subjects chain_length max e h;
      names = λ naming e j lt.
          (check_names_iff naming subjects 0 position).0
            (check_constraints_names constraints position subjects chain_length naming e h) j
            (omega arith) (omega arith);
    },
    λ w. elim (Option-cases constraints.naming_constraints) [
      | inl unnamed ↦ elim (Option-cases constraints.max_path_length) [
        | inl free ↦ ground (arith, unnamed, free)
        | inr (max, bound) ↦
            let within = w.path_length max bound in ground (arith, unnamed, bound, within)
      ]
      | inr (naming, some_names) ↦
          let good =
            (check_names_iff naming subjects 0 position).1
              (λ j _ lt. w.names naming some_names j (omega arith)) in
          elim (Option-cases constraints.max_path_length) [
            | inl free ↦ ground (arith, some_names, free, good)
            | inr (max, bound) ↦
                let within = w.path_length max bound in
                ground (arith, some_names, bound, within, good)
          ]
    ],
  )
