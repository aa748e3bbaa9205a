-- ===== src/Clock/Slice.antt =====
-- Time slices, milliseconds and interrupts.
use lltrisc_v.Prelude.{
  ℕ, zero, suc, ◌+◌, ◌-◌, ◌*◌, ◌%◌, ◌^◌, ◌≤◌, ◌<◌, ◌≡◌, refl, ap, sym, ◌∙◌, fun_ext, true, false,
  some, arith, ◌==◌, length, ltb,
}
use lltrisc_v.Kernel.State.{Kernel, has_stat, thread_ready}
use lltrisc_v.Kernel.Lists.{set_thread}
use lltrisc_v.Scheduler.{schedule}
use lltrisc_v.Thread.{thread_yield, to_tail}
use lltrisc_v.Clock.{
  count_slice, tick_from_millisecond, waiting_forever, interrupt_enter, interrupt_leave,
  interrupt_get_nest,
}

-- The ticks of a slice, as `rt_tick_increase` counts them for a thread that runs all the time.
abbrev pub slices : ℕ → ℕ → Kernel → Kernel
slices zero t k = k
slices (suc n) t k = count_slice t (slices n t k)

abbrev with_left : ℕ → ℕ → Kernel → Kernel
with_left t left k = set_thread t (record (k.thread t) { remaining_tick = left }) k

suc_sub : (n : ℕ) → suc n - n ≡ 1
suc_sub n = omega arith

with_left_self :
    (t left : ℕ) (k : Kernel) → (k.thread t).remaining_tick ≡ left → with_left t left k ≡ k
with_left_self t left k e = ap (λ f. record k { thread = f }) (fun_ext (λ u. ground (arith, e)))

with_left-twice : (t a b : ℕ) (k : Kernel) → with_left t b (with_left t a k) ≡ with_left t b k
with_left-twice t a b k = ap (λ f. record k { thread = f }) (fun_ext (λ u. ground arith))

count_step :
    (t left : ℕ) (k : Kernel)
    → (k.thread t).remaining_tick ≡ left
    → 1 < left
    → left < 2 ^ 32
    → count_slice t k ≡ with_left t (left - 1) k
unfolding count_slice
count_step t left k e more fits =
    let l : ((k.thread t).remaining_tick + 2 ^ 32 - 1) % 2 ^ 32 ≡ left - 1 = ground (arith, e) in
    let n : ((left - 1) == 0) ≡ false = ground (arith, more) in rw (l, n) refl

count_end :
    (t : ℕ) (k : Kernel)
    → k.current_thread ≡ some t
    → (k.thread t).remaining_tick ≡ 1
    → count_slice t k ≡ (thread_yield (with_left t (k.thread t).init_tick k)).1
unfolding count_slice
count_end t k current e =
    let l : ((k.thread t).remaining_tick + 2 ^ 32 - 1) % 2 ^ 32 ≡ 0 = ground (arith, e) in rw l refl

yield_turn :
    (t : ℕ) (k : Kernel)
    → k.current_thread ≡ some t
    → has_stat thread_ready (k.thread t) ≡ true
    → 1 < length (k.priority_table (k.thread t).current_priority)
    → (thread_yield k).1 ≡ schedule (to_tail t k)
unfolding thread_yield
yield_turn t k current ready others =
    let l : ltb 1 (length (k.priority_table (k.thread t).current_priority)) ≡ true =
      ground (arith, others) in
    rw (current, ready, l) refl

sub_step : (n m : ℕ) → suc n - m - 1 ≡ suc n - suc m
sub_step n m = omega arith

counted :
    (m t : ℕ) (k : Kernel) (n : ℕ)
    → m ≤ n
    → (k.thread t).remaining_tick ≡ suc n
    → suc n < 2 ^ 32
    → slices m t k ≡ with_left t (suc n - m) k
counted zero t k n h left fits = sym (with_left_self t (suc n - 0) k (omega (arith, left)))
counted (suc m) t k n h left fits =
    ap (count_slice t) (counted m t k n (omega (arith, h)) left fits)
    ∙ count_step t (suc n - m) (with_left t (suc n - m) k) (ground arith) (omega (arith, h))
        (omega (arith, fits))
    ∙ with_left-twice t (suc n - m) (suc n - m - 1) k
    ∙ ap (λ x. with_left t x k) (sub_step n m)

-- A running thread with `n + 1` ticks left of its slice, beside another thread that is ready at
-- its priority, runs for `n` ticks with nothing changed but the count; at the next one its slice
-- is whole again, it goes to the end of the queue and the scheduler runs.
pub slices-end :
    (n t : ℕ) (k : Kernel)
    → k.current_thread ≡ some t
    → has_stat thread_ready (k.thread t) ≡ true
    → 1 < length (k.priority_table (k.thread t).current_priority)
    → (k.thread t).remaining_tick ≡ suc n
    → suc n < 2 ^ 32
    → let whole =
        set_thread t (record (k.thread t) { remaining_tick = (k.thread t).init_tick }) k in
      (slices n t k ≡ set_thread t (record (k.thread t) { remaining_tick = 1 }) k)
      × (slices (suc n) t k ≡ schedule (to_tail t whole))
slices-end n t k current ready others left fits =
    let one : slices n t k ≡ with_left t 1 k =
      counted n t k n (omega arith) left fits ∙ ap (λ m. with_left t m k) (suc_sub n) in
    (one, ap (count_slice t) one ∙ last_tick)
  where
    last_tick :
        count_slice t (with_left t 1 k)
        ≡ schedule (to_tail t (with_left t (k.thread t).init_tick k))
    last_tick =
        count_end t (with_left t 1 k) current (ground arith)
        ∙ ap (λ x. (thread_yield x).1)
            (with_left-twice t 1 _ k ∙ ap (λ x. with_left t x k) (ground arith))
        ∙ yield_turn t (with_left t (k.thread t).init_tick k) current (ground (arith, ready))
            (ground (arith, others))

-- `rt_tick_from_millisecond`: ten ticks for each millisecond, modulo 2^32, and RT_WAITING_FOREVER for a
-- negative time.
pub tick_from_millisecond-exact :
    (ms : ℕ)
    → (ms < 2 ^ 31 → tick_from_millisecond ms ≡ 10 * ms % 2 ^ 32)
      × (2 ^ 31 ≤ ms → tick_from_millisecond ms ≡ waiting_forever)
unfolding tick_from_millisecond
tick_from_millisecond-exact ms = (λ h. ground (arith, h), λ h. ground (arith, h))

enter-leave : (k : Kernel) → k.interrupt_nest + 1 < 2 ^ 8 → interrupt_leave (interrupt_enter k) ≡ k
unfolding interrupt_enter interrupt_leave
enter-leave k h =
    let e : ((k.interrupt_nest + 1) % 2 ^ 8 + 2 ^ 8 - 1) % 2 ^ 8 ≡ k.interrupt_nest =
      omega (arith, h) in
    ap (λ m. record k { interrupt_nest = m }) e

-- `n` nested interrupts
abbrev pub nested : ℕ → Kernel → Kernel
nested zero k = k
nested (suc n) k = interrupt_leave (nested n (interrupt_enter k))

-- Interrupts that nest at most 255 deep leave the kernel as it was, its nesting count included.
pub nested-balanced : (n : ℕ) (k : Kernel) → interrupt_get_nest k + n < 2 ^ 8 → nested n k ≡ k
unfolding interrupt_enter interrupt_leave interrupt_get_nest
nested-balanced zero k h = refl
nested-balanced (suc n) k h =
    ap interrupt_leave (nested-balanced n (interrupt_enter k) (ground (arith, h)))
    ∙ enter-leave k (omega (arith, h))
