-- ===== src/Chain/Limiter.antt =====
-- `createConcurrencyLimiter` of packages/core/src/trust-chain/resolve.ts: at most a number of calls
-- run at a time, and the others wait in a queue. What is done to it from outside is a sequence of
-- operations; `granted` lists the calls that were given a slot, in order.
use oidfed.Common.{
  ℕ, suc, ◌-◌, ◌≤◌, ◌<◌, ltb, ◌==◌, ◌≡◌, ◌≢◌, refl, ap, Bool, true, false, Option, none, some, List,
  [], ◌∷◌, ◌++◌, if◌then◌else◌, In, inl, inr, append_left, append_right, arith, Bool-cases, length,
}

pub record Limiter : Type 0 where
  pub active : ℕ
  pub queue : List ℕ
  pub granted : List ℕ

-- `none`: the RangeError.
unfoldable pub create_concurrency_limiter : ℕ → Option Limiter
create_concurrency_limiter max_concurrent =
    if max_concurrent == 0 then none else some (record { active = 0; queue = []; granted = [] })

-- A call comes and asks for a slot; one that holds a slot is done; the signal aborts.
pub data Operation : Type 0 where
  acquire : ℕ → Operation
  release abort : Operation

module _ (max_concurrent : ℕ) where
  unfoldable pub step : Limiter → Operation → Limiter
  step limiter (acquire call) =
      if ltb limiter.active max_concurrent
      then record limiter { active = suc limiter.active; granted = limiter.granted ++ call ∷ [] }
      else record limiter { queue = limiter.queue ++ call ∷ [] }
  step limiter release = elim limiter.queue [
    | [] ↦ record limiter { active = limiter.active - 1 }
    | call ∷ calls ↦ record limiter { queue = calls; granted = limiter.granted ++ call ∷ [] }
  ]
  step limiter abort = record limiter { queue = [] }

  unfoldable pub run : Limiter → List Operation → Limiter
  run limiter [] = limiter
  run limiter (op ∷ ops) = run (step limiter op) ops

  -- No more than the number run, and calls wait only while so many do.
  pub record IsLimited (limiter : Limiter) : Type 0 where
    pub bound : limiter.active ≤ max_concurrent
    pub full : limiter.queue ≢ [] → limiter.active ≡ max_concurrent

  release-IsLimited :
      (limiter : Limiter) (queue : List ℕ)
      → limiter.queue ≡ queue
      → IsLimited limiter
      → IsLimited (step limiter release)
  unfolding step
  release-IsLimited limiter [] e i =
      rw (e, step) (record { bound = omega (arith, i.bound); full = λ more. absurd (more e) })
  release-IsLimited limiter (call ∷ calls) e i =
      rw (e, step) (record { bound = i.bound; full = λ more. i.full (λ empty. cc (e, empty)) })

  step-IsLimited :
      (limiter : Limiter) (op : Operation) → IsLimited limiter → IsLimited (step limiter op)
  unfolding step
  step-IsLimited limiter (acquire call) i = elim (Bool-cases (ltb limiter.active max_concurrent)) [
    | inl e ↦ rw e (record {
      bound = ground (arith, e);
      full = λ more. absurd (ground (arith, e, i.full more));
    })
    | inr e ↦ rw e (record { bound = i.bound; full = λ more. ground (arith, e, i.bound) })
  ]
  step-IsLimited limiter release i = release-IsLimited limiter limiter.queue refl i
  step-IsLimited limiter abort i = record { bound = i.bound; full = λ more. absurd (more refl) }

  run_from-IsLimited :
      (limiter : Limiter) (ops : List Operation) → IsLimited limiter → IsLimited (run limiter ops)
  unfolding run
  run_from-IsLimited limiter [] i = i
  run_from-IsLimited limiter (op ∷ ops) i =
      run_from-IsLimited (step limiter op) ops (step-IsLimited limiter op i)

  -- A limiter that is created never lets more calls run than its number, and a call waits only while
  -- exactly so many run, whatever is done to it.
  pub run-IsLimited :
      (limiter : Limiter) (ops : List Operation)
      → create_concurrency_limiter max_concurrent ≡ some limiter
      → IsLimited (run limiter ops)
  unfolding create_concurrency_limiter
  run-IsLimited limiter ops h =
      let same : record { active = 0; queue = []; granted = [] } ≡ limiter = ground (arith, h) in
      run_from-IsLimited limiter ops
        (rw (← same) (record { bound = omega arith; full = λ more. absurd (more refl) }))

  -- The calls that are done in a sequence without an abort.
  abbrev pub releases : List Operation → ℕ
  releases [] = 0
  releases (release ∷ ops) = suc (releases ops)
  releases (_ ∷ ops) = releases ops

  abbrev pub is_unaborted : List Operation → Bool
  is_unaborted [] = true
  is_unaborted (abort ∷ ops) = false
  is_unaborted (_ ∷ ops) = is_unaborted ops

  granted_stays_at :
      (limiter : Limiter) (queue : List ℕ) (call : ℕ)
      → limiter.queue ≡ queue
      → In call limiter.granted
      → In call (step limiter release).granted
  unfolding step
  granted_stays_at limiter [] call e m = rw (e, step) m
  granted_stays_at limiter (c ∷ cs) call e m =
      rw (e, step) (append_left call limiter.granted (c ∷ []) m)

  granted_stays :
      (limiter : Limiter) (op : Operation) (call : ℕ)
      → In call limiter.granted
      → In call (step limiter op).granted
  unfolding step
  granted_stays limiter (acquire c) call m = elim (Bool-cases (ltb limiter.active max_concurrent)) [
    | inl e ↦ rw e (append_left call limiter.granted (c ∷ []) m)
    | inr e ↦ rw e m
  ]
  granted_stays limiter release call m = granted_stays_at limiter limiter.queue call refl m
  granted_stays limiter abort call m = m

  run_stays :
      (limiter : Limiter) (ops : List Operation) (call : ℕ)
      → In call limiter.granted
      → In call (run limiter ops).granted
  unfolding run
  run_stays limiter [] call m = m
  run_stays limiter (op ∷ ops) call m =
      run_stays (step limiter op) ops call (granted_stays limiter op call m)

  append_assoc :
      (before : List ℕ) (call c : ℕ) (behind : List ℕ)
      → (before ++ call ∷ behind) ++ c ∷ [] ≡ before ++ call ∷ (behind ++ c ∷ [])
  append_assoc [] call c behind = refl
  append_assoc (b ∷ before) call c behind =
      ap (λ (t : List ℕ). b ∷ t) (append_assoc before call c behind)

  -- A call that waits is given a slot as soon as one call more is done than wait before it, whatever
  -- other calls come meanwhile, if the signal does not abort: nobody is passed over.
  pub run-granted :
      (ops : List Operation) (limiter : Limiter) (before behind : List ℕ) (call : ℕ)
      → limiter.queue ≡ before ++ call ∷ behind
      → is_unaborted ops ≡ true
      → length before < releases ops
      → In call (run limiter ops).granted
  unfolding run step
  run-granted [] limiter before behind call e u n = absurd (omega arith)
  run-granted (acquire c ∷ ops) limiter before behind call e u n =
      elim (Bool-cases (ltb limiter.active max_concurrent)) [
        | inl full ↦ run-granted ops (step limiter (acquire c)) before behind call (rw full e) u n
        | inr full ↦
            run-granted ops (step limiter (acquire c)) before (behind ++ c ∷ []) call
              (rw full (rw e (append_assoc before call c behind))) u n
      ]
  run-granted (release ∷ ops) limiter [] behind call e u n =
      run_stays (step limiter release) ops call
        (rw (e, step) (append_right call limiter.granted (call ∷ []) (inl refl)))
  run-granted (release ∷ ops) limiter (b ∷ before) behind call e u n =
      run-granted ops (step limiter release) before behind call (rw (e, step) refl) u
        (omega (arith, n))
  run-granted (abort ∷ ops) limiter before behind call e u n = absurd (cc u)
