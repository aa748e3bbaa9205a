-- ===== src/Clock/Due.antt =====
-- The timers that are due, and how `rt_timer_check` changes their number when it starts one anew.
use lltrisc_v.Prelude.{
  ℕ, suc, ◌+◌, ◌%◌, ◌^◌, ◌<◌, ◌≡◌, refl, ap, ◌∙◌, Bool, true, false, ◌&&◌, List, [], ◌∷◌, some,
  none, arith, if◌then◌else◌, ltb, update, mem, remove, nodup, remove_absent, Bool-cases, inl, inr,
  ◌⊎◌,
}
use lltrisc_v.Kernel.State.{Kernel, Timer, Timeout}
use lltrisc_v.Kernel.Lists.{set_timer}
use lltrisc_v.Timer.{
  tick_sub, half_range, restart, fire, next_due, check_loop, timer_unlink, timer_start,
  insert_sorted,
}
use lltrisc_v.Timer.Check.{is_due}

-- The number of the timers in a row that are due.
abbrev pub due_count : ℕ → (ℕ → Timer) → List ℕ → ℕ
due_count now timer [] = 0
due_count now timer (t ∷ ts) =
    let rest = due_count now timer ts in if is_due now (timer t) then rest + 1 else rest

pub due_count-update :
    (now : ℕ) (timer : ℕ → Timer) (m : ℕ) (b : Timer) (ts : List ℕ)
    → mem m ts ≡ false
    → due_count now (update timer m b) ts ≡ due_count now timer ts
due_count-update now timer m b [] out = refl
due_count-update now timer m b (t ∷ ts) out = ground (arith, due_count-update now timer m b ts)

due_count-insert :
    (now : ℕ) (timer : ℕ → Timer) (m : ℕ) (ts : List ℕ)
    → is_due now (timer m) ≡ false
    → due_count now timer (insert_sorted timer m ts) ≡ due_count now timer ts
unfolding insert_sorted
due_count-insert now timer m [] h = ground arith
due_count-insert now timer m (t ∷ ts) h = ground (arith, due_count-insert now timer m ts)

pub due_count-remove :
    (now : ℕ) (timer : ℕ → Timer) (m : ℕ) (ts : List ℕ)
    → nodup ts ≡ true
    → mem m ts ≡ true
    → is_due now (timer m) ≡ true
    → due_count now timer ts ≡ due_count now timer (remove m ts) + 1
due_count-remove now timer m [] once h due = cc
due_count-remove now timer m (t ∷ ts) once h due =
    ground (arith, due_count-remove now timer m ts, remove_absent m ts)

-- Periodic timers wait at least one tick, and less than half of the range.
pub record HasPeriods (k : Kernel) : Type 0 where
  pub tick_fits : k.tick < 2 ^ 32
  pub not_zero : (m : ℕ) → (k.timer m).periodic ≡ true → 0 < (k.timer m).init_tick
  pub below : (m : ℕ) → (k.timer m).periodic ≡ true → (k.timer m).init_tick < half_range

abbrev pub due_in : Kernel → ℕ
due_in k = due_count k.tick k.timer k.timer_list

-- A timer that starts anew is not due.
again_later :
    (now time : ℕ)
    → now < 2 ^ 32
    → 0 < time
    → time < half_range
    → ltb (tick_sub now ((now + time) % 2 ^ 32)) half_range ≡ false
again_later now time h p l = ground (arith, h, p, l)

-- What is left of a timer that fired: the row without it, or with it started anew.
pub record Left (m : ℕ) (k k' : Kernel) : Type 0 where
  pub periods : HasPeriods k'
  pub tick : k'.tick ≡ k.tick
  pub count : due_in k' ≡ due_count k.tick k.timer (remove m k.timer_list)

count_again :
    (now : ℕ) (timer : ℕ → Timer) (m : ℕ) (off on : Timer) (ts : List ℕ)
    → mem m ts ≡ false
    → is_due now on ≡ false
    → let timer' = update (update timer m off) m on in
      due_count now timer' (insert_sorted timer' m ts) ≡ due_count now timer ts
count_again now timer m off on ts gone later =
    due_count-insert now (update (update timer m off) m on) m ts (ground (arith, later))
    ∙ due_count-update now (update timer m off) m on ts gone
    ∙ due_count-update now timer m off ts gone

stop : ℕ → Kernel → Kernel
stop m k = set_timer m (record (k.timer m) { activated = false }) (timer_unlink m k)

start-Left :
    (m : ℕ) (k : Kernel)
    → HasPeriods k
    → mem m k.timer_list ≡ false
    → (k.timer m).periodic ≡ true
    → Left m k (timer_start m (stop m k))
unfolding timer_unlink timer_start stop
start-Left m k h gone again =
    let off = record (k.timer m) { activated = false } in
    let row = remove m k.timer_list in
    let same : row ≡ k.timer_list = remove_absent m k.timer_list gone in
    record {
      periods = record {
        tick_fits = h.tick_fits;
        not_zero = λ n e. ground (arith, h.not_zero n);
        below = λ n e. ground (arith, h.below n);
      };
      tick = refl;
      count = rw (ap (remove m) same) (
          count_again k.tick k.timer m off _ row (rw same gone) (
            ground (
              arith,
              again_later k.tick (k.timer m).init_tick h.tick_fits (h.not_zero m again)
                  (h.below m again),
            )));
    }

choose :
    (b : Bool) {m : ℕ} {k x y : Kernel}
    → (b ≡ true → Left m k x)
    → Left m k y
    → Left m k (if b then x else y)
choose true f i = f refl
choose false f i = i

unlinked-Left : (m : ℕ) (k : Kernel) → HasPeriods k → Left m k (timer_unlink m k)
unfolding timer_unlink
unlinked-Left m k h = record {
  periods = record { tick_fits = h.tick_fits; not_zero = h.not_zero; below = h.below };
  tick = refl;
  count = refl;
}

restart-nil : (m : ℕ) (k : Kernel) → k.fired_list ≡ [] → restart m k ≡ k
unfolding restart
restart-nil m k e = ground (arith, e)

restart-cons :
    (m : ℕ) (k : Kernel) (f : ℕ) (fs : List ℕ)
    → k.fired_list ≡ f ∷ fs
    → let k' = timer_unlink m k in
      restart m k
      ≡ (if (k'.timer m).periodic && (k'.timer m).activated then timer_start m (stop m k) else k')
unfolding restart stop
restart-cons m k f fs e = more k.fired_list e
  where
    more :
        (l : List ℕ)
        → l ≡ f ∷ fs
        → let k' = timer_unlink m k in
          (elim l [
            | [] ↦ k
            | g ∷ gs ↦
                if (k'.timer m).periodic && (k'.timer m).activated
                then timer_start m (stop m k)
                else k'
          ])
          ≡ (if (k'.timer m).periodic && (k'.timer m).activated
              then timer_start m (stop m k)
              else k')
    more [] e = cc
    more (g ∷ gs) e = refl

pub restart-Left :
    (m : ℕ) (k : Kernel) → HasPeriods k → mem m k.timer_list ≡ false → Left m k (restart m k)
unfolding restart stop
restart-Left m k h gone = ends k.fired_list refl
  where
    same : Left m k k
    same = record {
      periods = h;
      tick = refl;
      count = ground (arith, remove_absent m k.timer_list gone);
    }

    ends : (f : List ℕ) → k.fired_list ≡ f → Left m k (restart m k)
    ends [] e = rw (restart-nil m k e) same
    ends (f ∷ fs) e =
        rw (restart-cons m k f fs e)
          (choose _ (λ again. start-Left m k h gone (ground (arith, again))) (unlinked-Left m k h))

pub loop_stops :
    (call : Timeout → Kernel → Kernel) (fuel now : ℕ) (k : Kernel)
    → next_due now k ≡ none
    → check_loop call (suc fuel) now k ≡ some k
unfolding check_loop
loop_stops call fuel now k e = ground (arith, e)

pub loop_goes_on :
    (call : Timeout → Kernel → Kernel) (fuel now m : ℕ) (k : Kernel)
    → next_due now k ≡ some m
    → check_loop call (suc fuel) now k ≡ check_loop call fuel (fire call m k).tick (fire call m k)
unfolding check_loop
loop_goes_on call fuel now m k e = ground (arith, e)

pub next_due-cases :
    (now : ℕ) (k : Kernel)
    → (next_due now k ≡ none)
      ⊎ ((m : ℕ) × (next_due now k ≡ some m)
          × (mem m k.timer_list ≡ true)
          × (is_due now (k.timer m) ≡ true))
unfolding next_due
next_due-cases now k = head k.timer_list refl
  where
    head :
        (l : List ℕ)
        → k.timer_list ≡ l
        → (next_due now k ≡ none)
          ⊎ ((m : ℕ) × (next_due now k ≡ some m)
              × (mem m k.timer_list ≡ true)
              × (is_due now (k.timer m) ≡ true))
    head [] e = inl (rw e refl)
    head (m ∷ ms) e = elim (Bool-cases (is_due now (k.timer m))) [
      | inl due ↦ inr (m, rw (e, due) refl, ground (arith, e), due)
      | inr later ↦ inl (rw (e, later) refl)
    ]
