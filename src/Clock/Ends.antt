-- ===== src/Clock/Ends.antt =====
-- `rt_timer_check` ends: each timer that it fires leaves one timer less that is due.
use lltrisc_v.Prelude.{
  ℕ, zero, suc, ◌+◌, ◌<◌, ◌≡◌, ap, sym, ◌∙◌, true, false, not, [], some, none, arith, if◌then◌else◌,
  update, mem, remove, nodup, mem-remove_self, remove_absent, inl, inr,
}
use lltrisc_v.Kernel.State.{Kernel}
use lltrisc_v.Timer.{expire, fire, next_due, check_loop, timer_check, timer_unlink}
use lltrisc_v.Timer.Check.{is_due}
use lltrisc_v.Thread.{run_timeout}
use lltrisc_v.Clock.Safe.{IsQuiet, run_timeout-SameTimers, IsTimed, fire-IsTimed, cleared-IsTimed}
use lltrisc_v.Clock.Due.{
  HasPeriods, due_count, due_in, due_count-update, due_count-remove, restart-Left, loop_stops,
  loop_goes_on, next_due-cases,
}

module _ (app : ℕ → ℕ → Kernel → Kernel) (quiet : IsQuiet app) where
  -- After the timer's function, before it may start anew.
  called : ℕ → Kernel → Kernel
  called m k = run_timeout app (k.timer m).timeout_func (expire m k)

  called-timers :
      (m : ℕ) (k : Kernel)
      → let k' = called m k in
        (k'.tick ≡ k.tick)
        × (k'.timer_list ≡ remove m k.timer_list)
        × (k'.timer
            ≡ update k.timer m (record (k.timer m) {
              activated = if not (k.timer m).periodic then false else (k.timer m).activated;
            }))
  unfolding called expire timer_unlink
  called-timers m k =
      let s = run_timeout-SameTimers app quiet (k.timer m).timeout_func (expire m k) in
      (s.tick, s.timer_list, s.timer)

  called-HasPeriods : (m : ℕ) (k : Kernel) → HasPeriods k → HasPeriods (called m k)
  called-HasPeriods m k h =
      let (tick, row, timer) = called-timers m k in
      record {
        tick_fits = ground (arith, tick, h.tick_fits);
        not_zero = λ n e. ground (arith, timer, h.not_zero n);
        below = λ n e. ground (arith, timer, h.below n);
      }

  called-count :
      (m : ℕ) (k : Kernel)
      → nodup k.timer_list ≡ true
      → let k' = called m k in
        due_count k'.tick k'.timer (remove m k'.timer_list)
        ≡ due_count k.tick k.timer (remove m k.timer_list)
  called-count m k once =
      let (tick, row, timer) = called-timers m k in
      let out = mem-remove_self m k.timer_list once in
      rw (tick, row, timer, remove_absent m (remove m k.timer_list) out)
        (due_count-update k.tick k.timer m _ (remove m k.timer_list) out)

  -- One timer fewer is due after one round of the loop.
  fire-less :
      (m : ℕ) (k : Kernel)
      → HasPeriods k
      → nodup k.timer_list ≡ true
      → mem m k.timer_list ≡ true
      → is_due k.tick (k.timer m) ≡ true
      → let k' = fire (run_timeout app) m k in
        HasPeriods k' × (k'.tick ≡ k.tick) × (due_in k ≡ due_in k' + 1)
  unfolding fire called
  fire-less m k h once there due =
      let (tick, row, timer) = called-timers m k in
      let out = mem-remove_self m k.timer_list once in
      let l = restart-Left m (called m k) (called-HasPeriods m k h) (ap (mem m) row ∙ out) in
      let less = due_count-remove k.tick k.timer m k.timer_list once there due in
      (l.periods, l.tick ∙ tick, less ∙ ap (λ n. n + 1) (sym (called-count m k once) ∙ sym l.count))

  -- The loop of `rt_timer_check` from a consistent state, with more fuel than timers are due.
  check_loop-IsTimed :
      (fuel : ℕ) (k : Kernel)
      → IsTimed k
      → HasPeriods k
      → due_in k < fuel
      → (k' : Kernel) × (check_loop (run_timeout app) fuel k.tick k ≡ some k')
        × IsTimed k'
        × HasPeriods k'
        × (next_due k'.tick k' ≡ none)
  check_loop-IsTimed zero k i h few = absurd (omega (arith, few))
  check_loop-IsTimed (suc fuel) k i h few = elim (next_due-cases k.tick k) [
    | inl e ↦ (k, loop_stops _ fuel k.tick k e, i, h, e)
    | inr (m, e, there, due) ↦
        let (h', same, less) = fire-less m k h i.distinct there due in
        let (l, runs, i', p', done) =
          check_loop-IsTimed fuel (fire (run_timeout app) m k) (fire-IsTimed app quiet m k i there)
            h' (omega (arith, less, few)) in
        (l, loop_goes_on _ fuel k.tick m k e ∙ runs, i', p', done)
  ]

  -- `rt_timer_check` in a consistent state, with more fuel than timers are due: it returns, the state is
  -- consistent again, and the first of the running timers is not due.
  pub timer_check-ends :
      (fuel : ℕ) (k : Kernel)
      → IsTimed k
      → HasPeriods k
      → due_in k < fuel
      → (k' : Kernel) × (timer_check (run_timeout app) fuel k ≡ some k')
        × IsTimed k'
        × HasPeriods k'
        × (next_due k'.tick k' ≡ none)
  unfolding timer_check
  timer_check-ends fuel k i h few =
      check_loop-IsTimed fuel (record k { fired_list = [] }) (cleared-IsTimed k i)
        (record { tick_fits = h.tick_fits; not_zero = h.not_zero; below = h.below }) few
