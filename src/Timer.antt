-- ===== src/Timer.antt =====
-- os/rt-thread-nano/src/timer.c with one row (RT_TIMER_SKIP_LIST_LEVEL is 1) and no soft timers,
-- as the port configures it; `fired_list` is the local `list` of `rt_timer_check`.
pub mod Order
pub mod Check
use lltrisc_v.Prelude.{
  ℕ, zero, suc, ◌+◌, ◌-◌, ◌/◌, ◌%◌, ◌^◌, Bool, true, false, not, ◌&&◌, List, [], ◌∷◌, ◌==◌,
  if◌then◌else◌, ltb, remove, Option, none, some, update,
}
use lltrisc_v.Kernel.State.{Kernel, Timer, Timeout, Err, eok, error}
use lltrisc_v.Kernel.Lists.{set_timer}

-- RT_TICK_MAX, and half of it: ticks are compared within this distance.
abbrev pub tick_max : ℕ
tick_max = 2 ^ 32 - 1

abbrev pub half_range : ℕ
half_range = tick_max / 2

-- `a - b` on `rt_tick_t`
abbrev pub tick_sub : ℕ → ℕ → ℕ
tick_sub a b = (a + 2 ^ 32 - b) % 2 ^ 32

-- `rt_list_remove(&timer->row[0])`: out of the list of the running timers or of the fired ones.
unfoldable pub timer_unlink : ℕ → Kernel → Kernel
timer_unlink m k = record k {
  timer_list = remove m k.timer_list;
  fired_list = remove m k.fired_list;
}

abbrev set_activated : Bool → ℕ → Kernel → Kernel
set_activated b m k = set_timer m (record (k.timer m) { activated = b }) k

-- `_rt_timer_init`
unfoldable pub timer_init : ℕ → Timeout → ℕ → (periodic soft : Bool) → Kernel → Kernel
timer_init m timeout time periodic soft k =
    set_timer m
      (record {
        activated = false;
        periodic = periodic;
        soft = soft;
        timeout_func = timeout;
        init_tick = time;
        timeout_tick = 0;
      })
      k

-- `rt_timer_list_next_timeout`
unfoldable pub next_timeout_tick : Kernel → ℕ
next_timeout_tick k = elim k.timer_list [ [] ↦ tick_max | m ∷ rest ↦ (k.timer m).timeout_tick ]

-- The walk of `rt_timer_start` along the row, and the insertion behind the node it stops at: past
-- every timer that is due at the same tick or before.
unfoldable pub insert_sorted : (ℕ → Timer) → ℕ → List ℕ → List ℕ
insert_sorted timer m [] = m ∷ []
insert_sorted timer m (t ∷ ts) =
    let diff = tick_sub (timer t).timeout_tick (timer m).timeout_tick in
    let rest = insert_sorted timer m ts in
    if diff == 0 then t ∷ rest else if ltb diff half_range then m ∷ t ∷ ts else t ∷ rest

-- `rt_timer_start`
unfoldable pub timer_start : ℕ → Kernel → Kernel
unfolding timer_unlink insert_sorted
timer_start m k =
    let k' = timer_unlink m k in
    let b = record (k'.timer m) {
      activated = true;
      timeout_tick = (k.tick + (k'.timer m).init_tick) % 2 ^ 32;
    } in
    let timer = update k'.timer m b in
    record k' { timer = timer; timer_list = insert_sorted timer m k'.timer_list }

-- `rt_timer_stop`
unfoldable pub timer_stop : ℕ → Kernel → Err × Kernel
unfolding timer_unlink
timer_stop m k =
    if not (k.timer m).activated
    then (error, k)
    else (eok, set_activated false m (timer_unlink m k))

-- `rt_timer_detach`, up to the object container that `rt_object_detach` updates
unfoldable pub timer_detach : ℕ → Kernel → Err × Kernel
unfolding timer_unlink
timer_detach m k = (eok, set_activated false m (timer_unlink m k))

-- The commands of `rt_timer_control`, with the argument that each reads.
pub data Control : Type 0 where
  set_time : ℕ → Control
  get_time set_oneshot set_periodic get_state : Control

-- `rt_timer_control`: the value written through the argument, if any, and the new state.
unfoldable pub timer_control : ℕ → Control → Kernel → Option ℕ × Kernel
timer_control m get_time k = (some (k.timer m).init_tick, k)
timer_control m (set_time tick) k = (none, set_timer m (record (k.timer m) { init_tick = tick }) k)
timer_control m set_oneshot k = (none, set_timer m (record (k.timer m) { periodic = false }) k)
timer_control m set_periodic k = (none, set_timer m (record (k.timer m) { periodic = true }) k)
timer_control m get_state k = (some (if (k.timer m).activated then 1 else 0), k)

-- A timer that has run out, in `rt_timer_check`: out of the row and, unless it is periodic, no
-- longer active; into the fired list.
unfoldable pub expire : ℕ → Kernel → Kernel
unfolding timer_unlink
expire m k =
    let b = k.timer m in
    let k' = timer_unlink m k in
    record (set_timer m (record b { activated = if not b.periodic then false else b.activated })
      k') { fired_list = m ∷ k'.fired_list }

-- After its function was called: if the function detached or started the timer, the fired list is
-- empty and nothing is left to do; else the timer leaves that list, and a periodic one that is still
-- active starts again.
unfoldable pub restart : ℕ → Kernel → Kernel
unfolding timer_unlink timer_start
restart m k =
    let k' = timer_unlink m k in
    let again = timer_start m (set_activated false m k') in
    elim k.fired_list [
      | [] ↦ k
      | f ∷ fs ↦ if (k'.timer m).periodic && (k'.timer m).activated then again else k'
    ]

-- `call` runs a timeout function.
unfoldable pub fire : (Timeout → Kernel → Kernel) → ℕ → Kernel → Kernel
fire call m k = restart m (call (k.timer m).timeout_func (expire m k))

-- The head of the row, if its time has come.
unfoldable pub next_due : ℕ → Kernel → Option ℕ
next_due current_tick k = elim k.timer_list [
  | [] ↦ none
  | m ∷ rest ↦
      if ltb (tick_sub current_tick (k.timer m).timeout_tick) half_range then some m else none
]

-- The loop of `rt_timer_check` on fuel. The tick is read again after each timer.
unfoldable pub check_loop : (Timeout → Kernel → Kernel) → ℕ → ℕ → Kernel → Option Kernel
check_loop call zero current_tick k = none
check_loop call (suc fuel) current_tick k = elim (next_due current_tick k) [
  | none ↦ some k
  | some m ↦ let k' = fire call m k in check_loop call fuel k'.tick k'
]

-- `rt_timer_check`
unfoldable pub timer_check : (Timeout → Kernel → Kernel) → ℕ → Kernel → Option Kernel
unfolding check_loop fire expire restart
timer_check call fuel k = check_loop call fuel k.tick (record k { fired_list = [] })
