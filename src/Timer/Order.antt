-- ===== src/Timer/Order.antt =====
-- `rt_timer_start` keeps the row of running timers in the order of their ticks. Ticks wrap, so the
-- order is that of the distances from a base tick, all less than half of the range.
use lltrisc_v.Prelude.{
  ℕ, ◌+◌, ◌%◌, ◌^◌, ◌≤◌, ◌<◌, ◌≡◌, ◌≢◌, refl, Bool, true, false, List, [], ◌∷◌, arith, ◌==◌, ltb,
  update, mem, remove, nodup, mem-remove_ne, mem-remove_self, nodup-remove, ◌||◌, not, ◌&&◌,
}
use lltrisc_v.Kernel.State.{Kernel, Timer, eok, error}
use lltrisc_v.Timer.{tick_sub, half_range, insert_sorted, timer_start, timer_stop}

-- A tick that a base reaches within half of the range.
pub record IsNear (base tick : ℕ) : Type 0 where
  pub fits : tick < 2 ^ 32
  pub near : tick_sub tick base < half_range

-- The running timers: near the base, in order, each once.
abbrev pub NotBefore : (ℕ → Timer) → ℕ → ℕ → List ℕ → Type 0
NotBefore timer base d [] = Unit {0}
NotBefore timer base d (t ∷ ts) =
    (d ≤ tick_sub (timer t).timeout_tick base) × NotBefore timer base d ts

abbrev pub IsOrdered : (ℕ → Timer) → ℕ → List ℕ → Type 0
IsOrdered timer base [] = Unit {0}
IsOrdered timer base (t ∷ ts) =
    IsNear base (timer t).timeout_tick
    × NotBefore timer base (tick_sub (timer t).timeout_tick base) ts
    × IsOrdered timer base ts

module _ (base a b : ℕ) (h : base < 2 ^ 32) (na : IsNear base a) (nb : IsNear base b) where
  diff_ahead : tick_sub b base ≤ tick_sub a base → tick_sub a b + tick_sub b base ≡ tick_sub a base
  diff_ahead le = omega arith

  diff_behind :
      tick_sub a base < tick_sub b base → tick_sub a b + tick_sub b base ≡ 2 ^ 32 + tick_sub a base
  diff_behind lt = omega arith

-- The walk passes exactly the timers that are not due later.
abbrev later : ℕ → ℕ → Bool
later a b = not (tick_sub a b == 0) && ltb (tick_sub a b) half_range

later-ltb :
    (base a b : ℕ)
    → base < 2 ^ 32
    → IsNear base a
    → IsNear base b
    → later a b ≡ ltb (tick_sub b base) (tick_sub a base)
later-ltb base a b h na nb =
    ground (arith, diff_ahead base a b h na nb, diff_behind base a b h na nb, na.near, nb.near)

NotBefore-mono :
    (timer : ℕ → Timer) (base d e : ℕ) (ts : List ℕ)
    → e ≤ d
    → NotBefore timer base d ts
    → NotBefore timer base e ts
NotBefore-mono timer base d e [] h n = tt
NotBefore-mono timer base d e (t ∷ ts) h n = (omega arith, NotBefore-mono timer base d e ts h n.1)

insert-NotBefore :
    (timer : ℕ → Timer) (base d m : ℕ) (ts : List ℕ)
    → NotBefore timer base d ts
    → d ≤ tick_sub (timer m).timeout_tick base
    → NotBefore timer base d (insert_sorted timer m ts)
unfolding insert_sorted
insert-NotBefore timer base d m [] n h = (h, tt)
insert-NotBefore timer base d m (t ∷ ts) n h = ground (arith, insert-NotBefore timer base d m ts)

insert_sorted-IsOrdered :
    (timer : ℕ → Timer) (base m : ℕ) (ts : List ℕ)
    → base < 2 ^ 32
    → IsNear base (timer m).timeout_tick
    → IsOrdered timer base ts
    → IsOrdered timer base (insert_sorted timer m ts)
unfolding insert_sorted
insert_sorted-IsOrdered timer base m [] h near o = (near, tt, tt)
insert_sorted-IsOrdered timer base m (t ∷ ts) h near o = ground (
  arith,
  later-ltb base (timer t).timeout_tick (timer m).timeout_tick h o.0 near,
  insert-NotBefore timer base (tick_sub (timer t).timeout_tick base) m ts o.1,
  NotBefore-mono timer base (tick_sub (timer t).timeout_tick base)
      (tick_sub (timer m).timeout_tick base) ts,
  insert_sorted-IsOrdered timer base m ts h near o.2,
)

-- Removing a timer, or writing one that is not in the row, keeps the order.
remove-NotBefore :
    (timer : ℕ → Timer) (base d m : ℕ) (ts : List ℕ)
    → NotBefore timer base d ts
    → NotBefore timer base d (remove m ts)
remove-NotBefore timer base d m [] n = tt
remove-NotBefore timer base d m (t ∷ ts) n = ground (arith, remove-NotBefore timer base d m ts)

remove-IsOrdered :
    (timer : ℕ → Timer) (base m : ℕ) (ts : List ℕ)
    → IsOrdered timer base ts
    → IsOrdered timer base (remove m ts)
remove-IsOrdered timer base m [] o = tt
remove-IsOrdered timer base m (t ∷ ts) o = ground (
  arith,
  remove-IsOrdered timer base m ts,
  remove-NotBefore timer base (tick_sub (timer t).timeout_tick base) m ts,
)

update-NotBefore :
    (timer : ℕ → Timer) (base d m : ℕ) (b : Timer) (ts : List ℕ)
    → mem m ts ≡ false
    → NotBefore timer base d ts
    → NotBefore (update timer m b) base d ts
update-NotBefore timer base d m b [] out n = tt
update-NotBefore timer base d m b (t ∷ ts) out n =
    ground (arith, update-NotBefore timer base d m b ts)

update-IsOrdered :
    (timer : ℕ → Timer) (base m : ℕ) (b : Timer) (ts : List ℕ)
    → mem m ts ≡ false
    → IsOrdered timer base ts
    → IsOrdered (update timer m b) base ts
update-IsOrdered timer base m b [] out o = tt
update-IsOrdered timer base m b (t ∷ ts) out o = ground (
  arith,
  update-IsOrdered timer base m b ts,
  update-NotBefore timer base (tick_sub (timer t).timeout_tick base) m b ts,
)

-- What `rt_timer_start` writes as the timer's tick.
abbrev pub due_tick : ℕ → Kernel → ℕ
due_tick m k = (k.tick + (k.timer m).init_tick) % 2 ^ 32

-- The timers with the started one written anew.
abbrev started : ℕ → Kernel → ℕ → Timer
started m k =
    update k.timer m (record (k.timer m) { activated = true; timeout_tick = due_tick m k })

start-IsOrdered :
    (k : Kernel) (m base : ℕ)
    → base < 2 ^ 32
    → IsNear base (due_tick m k)
    → nodup k.timer_list ≡ true
    → IsOrdered k.timer base k.timer_list
    → IsOrdered (timer_start m k).timer base (timer_start m k).timer_list
unfolding timer_start
start-IsOrdered k m base h near once o =
    insert_sorted-IsOrdered (started m k) base m (remove m k.timer_list) h
      (ground (arith, near.fits, near.near))
      (update-IsOrdered k.timer base m _ (remove m k.timer_list)
        (mem-remove_self m k.timer_list once) (remove-IsOrdered k.timer base m k.timer_list o))

mem-insert_sorted :
    (timer : ℕ → Timer) (m u : ℕ) (ts : List ℕ)
    → mem u (insert_sorted timer m ts) ≡ ((m == u) || mem u ts)
unfolding insert_sorted
mem-insert_sorted timer m u [] = refl
mem-insert_sorted timer m u (t ∷ ts) = ground (arith, mem-insert_sorted timer m u ts)

nodup-insert_sorted :
    (timer : ℕ → Timer) (m : ℕ) (ts : List ℕ)
    → nodup ts ≡ true
    → mem m ts ≡ false
    → nodup (insert_sorted timer m ts) ≡ true
unfolding insert_sorted
nodup-insert_sorted timer m [] n out = refl
nodup-insert_sorted timer m (t ∷ ts) n out =
    ground (arith, nodup-insert_sorted timer m ts, mem-insert_sorted timer m t ts)

-- With no timer twice in the row, after `rt_timer_start` the timer is active, due after its
-- period, and in the row once; the row holds the same other timers as before.
pub timer_start-runs :
    (k : Kernel) (m : ℕ)
    → nodup k.timer_list ≡ true
    → let k' = timer_start m k in
      ((k'.timer m).activated ≡ true)
      × ((k'.timer m).timeout_tick ≡ due_tick m k)
      × (nodup k'.timer_list ≡ true)
      × ((u : ℕ) → mem u k'.timer_list ≡ ((m == u) || mem u k.timer_list))
unfolding timer_start
timer_start-runs k m once = (
  ground arith,
  ground arith,
  nodup-insert_sorted (started m k) m (remove m k.timer_list) (nodup-remove m k.timer_list once)
      (mem-remove_self m k.timer_list once),
  λ u. ground (
    arith,
    mem-insert_sorted (started m k) m u (remove m k.timer_list),
    mem-remove_ne u m k.timer_list,
  ),
)

-- If the running timers, none twice in the row, stand in the order of their ticks from a base on,
-- within half the range, and the new tick is near the same base, `rt_timer_start` leaves them in
-- order, none twice; the row holds the started timer, which is active and due after its period, and
-- the other timers that it held.
pub timer_start-IsOrdered :
    (k : Kernel) (m base : ℕ)
    → base < 2 ^ 32
    → IsNear base (due_tick m k)
    → nodup k.timer_list ≡ true
    → IsOrdered k.timer base k.timer_list
    → let k' = timer_start m k in
      IsOrdered k'.timer base k'.timer_list
      × ((k'.timer m).activated ≡ true)
      × ((k'.timer m).timeout_tick ≡ (k.tick + (k.timer m).init_tick) % 2 ^ 32)
      × (nodup k'.timer_list ≡ true)
      × ((u : ℕ) → mem u k'.timer_list ≡ ((m == u) || mem u k.timer_list))
timer_start-IsOrdered k m base h near once o =
    let (on, due, single, members) = timer_start-runs k m once in
    (start-IsOrdered k m base h near once o, on, due, single, members)

-- With no timer twice in the row, `rt_timer_stop` takes an active timer out of the row, makes it
-- inactive and keeps every other timer; an inactive one it reports as an error, and changes
-- nothing.
pub timer_stop-cases :
    (k : Kernel) (m : ℕ)
    → nodup k.timer_list ≡ true
    → let (e, k') = timer_stop m k in
      ((k.timer m).activated ≡ false → (e ≡ error) × (k' ≡ k))
      × ((k.timer m).activated ≡ true
          → (e ≡ eok)
            × ((k'.timer m).activated ≡ false)
            × (mem m k'.timer_list ≡ false)
            × ((u : ℕ)
                → u ≢ m
                → (k'.timer u ≡ k.timer u) × (mem u k'.timer_list ≡ mem u k.timer_list)))
unfolding timer_stop
timer_stop-cases k m once = (
  λ off. ground arith,
  λ on. (
    ground arith,
    ground arith,
    ground (arith, mem-remove_self m k.timer_list),
    λ u h. ground (arith, mem-remove_ne u m k.timer_list),
  ),
)
