-- ===== src/Scheduler/Critical.antt =====
-- Critical sections, and switches asked for in interrupts.
use lltrisc_v.Prelude.{
  ℕ, zero, suc, ◌+◌, ◌-◌, ◌^◌, ◌<◌, ◌≡◌, refl, ap, sym, ◌∙◌, List, [], ◌∷◌, some, arith,
}
use lltrisc_v.Kernel.State.{Kernel, Switch, SwitchRequest}
use lltrisc_v.Scheduler.{
  enter_critical, exit_critical, critical_level, schedule, context_switch_interrupt,
}

-- `n` calls of `rt_enter_critical`
abbrev pub enter_times : ℕ → Kernel → Kernel
enter_times zero k = k
enter_times (suc n) k = enter_critical (enter_times n k)

-- `n` calls of `rt_exit_critical`
abbrev pub exit_times : ℕ → Kernel → Kernel
exit_times zero k = k
exit_times (suc n) k = exit_critical (exit_times n k)

enter_times-nest :
    (n : ℕ) (k : Kernel)
    → k.lock_nest + n < 2 ^ 16
    → enter_times n k ≡ record k { lock_nest = k.lock_nest + n }
unfolding enter_critical
enter_times-nest zero k h = ground arith
enter_times-nest (suc n) k h = ground (arith, enter_times-nest n k)

exit_times-nest :
    (n : ℕ) (k : Kernel)
    → n < k.lock_nest
    → k.lock_nest < 2 ^ 15
    → exit_times n k ≡ record k { lock_nest = k.lock_nest - n }
unfolding exit_critical
exit_times-nest zero k h fits = ground arith
exit_times-nest (suc n) k h fits = ground (arith, exit_times-nest n k)

-- A locked scheduler does not switch.
pub schedule-locked : (k : Kernel) → 0 < k.lock_nest → schedule k ≡ k
unfolding schedule
schedule-locked k h = ground arith

-- The last exit: the scheduler runs on the state before the section.
exit_last :
    (t : ℕ) (k : Kernel)
    → k.current_thread ≡ some t
    → k.lock_nest ≡ 1
    → exit_critical k ≡ schedule (record k { lock_nest = 0 })
unfolding exit_critical
exit_last t k current one = ground (arith, current, one)

same_unlocked : (k : Kernel) → k.lock_nest ≡ 0 → record k { lock_nest = 0 } ≡ k
same_unlocked k h = ap (λ m. record k { lock_nest = m }) (sym h)

exit_all :
    (n t : ℕ) (k : Kernel)
    → k.lock_nest ≡ 0
    → k.current_thread ≡ some t
    → n < 2 ^ 15 - 1
    → exit_critical (exit_times n (record k { lock_nest = suc n })) ≡ schedule k
exit_all n t k unlocked current small =
    let left =
      exit_times-nest n (record k { lock_nest = suc n }) (omega arith) (omega (arith, small)) in
    ap exit_critical left
    ∙ exit_last t (record k { lock_nest = suc n - n }) current (omega arith)
    ∙ ap schedule (same_unlocked k unlocked)

-- Up to 32767 nested critical sections of a running thread, begun unlocked: within them the level is
-- the number of the sections and the scheduler does nothing, and as many exits are one call of the
-- scheduler in the state before the sections.
pub critical_sections :
    (n t : ℕ) (k : Kernel)
    → k.lock_nest ≡ 0
    → k.current_thread ≡ some t
    → n < 2 ^ 15 - 1
    → (critical_level (enter_times (suc n) k) ≡ suc n)
      × (schedule (enter_times (suc n) k) ≡ enter_times (suc n) k)
      × (exit_times (suc n) (enter_times (suc n) k) ≡ schedule k)
unfolding critical_level
critical_sections n t k unlocked current small =
    let inside : enter_times (suc n) k ≡ record k { lock_nest = suc n } =
      enter_times-nest (suc n) k (ground (arith, unlocked, small)) ∙ ground (arith, unlocked) in
    rw inside (
      refl,
      schedule-locked (record k { lock_nest = suc n }) (omega arith),
      exit_all n t k unlocked current small,
    )

-- The counter is an `rt_int16_t`: of more than 32768 and at most 65535 nested critical sections of
-- a running thread, begun unlocked, the first exit already unlocks the scheduler.
pub critical_sections-overflow :
    (n t : ℕ) (k : Kernel)
    → k.lock_nest ≡ 0
    → k.current_thread ≡ some t
    → 2 ^ 15 < n
    → n < 2 ^ 16
    → exit_critical (enter_times n k) ≡ schedule k
unfolding exit_critical
critical_sections-overflow n t k unlocked current large fits =
    let inside : enter_times n k ≡ record k { lock_nest = n } =
      enter_times-nest n k (ground (arith, unlocked, fits)) ∙ ground (arith, unlocked) in
    ap exit_critical inside ∙ ground (arith, current, large, fits, same_unlocked k unlocked)

-- The requests of one interrupt, in their order.
abbrev pub requests : List Switch → SwitchRequest → SwitchRequest
requests [] r = r
requests (s ∷ ss) r = requests ss (context_switch_interrupt s.from s.to r)

-- The thread that the last of the requests names.
abbrev pub last_to : Switch → List Switch → ℕ
last_to s [] = s.to
last_to s (l ∷ ls) = last_to l ls

requests-pending :
    (s : Switch) (ss : List Switch) (r : SwitchRequest)
    → r.flag ≡ 1
    → let r' = requests (s ∷ ss) r in
      (r'.from_thread ≡ r.from_thread) × (r'.to_thread ≡ some (last_to s ss)) × (r'.flag ≡ 1)
unfolding context_switch_interrupt
requests-pending s [] r h = ground (arith, h)
requests-pending s (l ∷ ls) r h =
    ground (arith, h, requests-pending l ls (context_switch_interrupt s.from s.to r))

-- Requests that meet in one interrupt, none pending before: the trap handler leaves the thread of the
-- first one and enters the thread of the last one.
pub requests-merge :
    (s : Switch) (ss : List Switch) (r : SwitchRequest)
    → r.flag ≡ 0
    → let r' = requests (s ∷ ss) r in
      (r'.from_thread ≡ s.from) × (r'.to_thread ≡ some (last_to s ss)) × (r'.flag ≡ 1)
unfolding context_switch_interrupt
requests-merge s [] r h = ground (arith, h)
requests-merge s (l ∷ ls) r h =
    ground (arith, h, requests-pending l ls (context_switch_interrupt s.from s.to r))
