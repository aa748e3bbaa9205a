-- ===== src/Thread/Exit.antt =====
-- The end of a thread, os/rt-thread-nano/src/thread.c. The cleanup functions of an application, and which
-- threads are static objects, are arguments; the object containers are left out.
use lltrisc_v.Prelude.{
  ℕ, ◌≡◌, refl, Bool, true, false, Option, none, some, List, ◌∷◌, arith, if◌then◌else◌, mem, nodup,
  mem-remove_self,
}
use lltrisc_v.Kernel.State.{Kernel, Err, eok, thread_close, thread_suspend, thread_init, has_stat}
use lltrisc_v.Kernel.Lists.{set_thread, fail}
use lltrisc_v.Scheduler.{schedule, remove_thread}
use lltrisc_v.Scheduler.Invariant.{IsScheduled, retire, retire-IsScheduled, retire-alone}
use lltrisc_v.Scheduler.Highest.{
  SameQueues, SameQueues-IsScheduled, schedule-IsScheduled, schedule-same,
}
use lltrisc_v.Timer.{timer_detach}
use lltrisc_v.Thread.{change_priority, thread_startup}

-- The application's part: what the cleanup function of a thread does, if it has one, and which threads are
-- static objects (`rt_object_is_systemobject`).
pub record App : Type 0 where
  pub cleanup : ℕ → Option (Kernel → Kernel)
  pub is_system : ℕ → Bool

-- `_thread_cleanup_execute`
unfoldable pub thread_cleanup_execute : App → ℕ → Kernel → Kernel
thread_cleanup_execute app t k = elim (app.cleanup t) [ none ↦ k | some f ↦ f k ]

-- `thread->stat = RT_THREAD_CLOSE`
abbrev close_stat : ℕ → Kernel → Kernel
close_stat t k = set_thread t (record (k.thread t) { stat = thread_close }) k

-- A thread that is not a static object goes to the list of defunct threads.
abbrev pub bury : App → ℕ → List ℕ → List ℕ
bury app t defunct = if app.is_system t then defunct else t ∷ defunct

-- `rt_thread_exit`, with the list `rt_thread_defunct`
unfoldable pub thread_exit : App → List ℕ → Kernel → List ℕ × Kernel
thread_exit app defunct k = elim k.current_thread [
  | none ↦ (defunct, fail k)
  | some t ↦
      let k1 = close_stat t (remove_thread t (thread_cleanup_execute app t k)) in
      (bury app t defunct, schedule (timer_detach (k1.thread t).thread_timer k1).1)
]

-- `rt_thread_detach`
unfoldable pub thread_detach : App → ℕ → List ℕ → Kernel → Err × List ℕ × Kernel
thread_detach app t defunct k =
    let k1 = if has_stat thread_init (k.thread t) then k else remove_thread t k in
    let k2 = thread_cleanup_execute app t k1 in
    let k3 = (timer_detach (k2.thread t).thread_timer k2).1 in
    if has_stat thread_close (k.thread t)
    then (eok, defunct, k)
    else (eok, bury app t defunct, close_stat t k3)

-- The commands of `rt_thread_control`, without RT_USING_HEAP.
pub data Command : Type 0 where
  set_priority : ℕ → Command
  startup : Command
  close : Command
  other_command : Command

-- `rt_thread_control`
unfoldable pub thread_control : App → ℕ → Command → List ℕ → Kernel → Err × List ℕ × Kernel
thread_control app t (set_priority p) defunct k = (eok, defunct, change_priority t p k)
thread_control app t startup defunct k =
    let (result, k') = thread_startup t k in (result, defunct, k')
thread_control app t close defunct k =
    if app.is_system t then thread_detach app t defunct k else (eok, defunct, k)
thread_control app t other_command defunct k = (eok, defunct, k)

-- A thread that is closed, in no list, with its timer stopped.
pub record IsClosed (k : Kernel) (t : ℕ) : Type 0 where
  pub stat : (k.thread t).stat ≡ thread_close
  pub unqueued : (p : ℕ) → mem t (k.priority_table p) ≡ false
  pub alone : (o : ℕ) → mem t (k.suspend_list o) ≡ false
  pub no_timer : mem (k.thread t).thread_timer k.timer_list ≡ false
  pub stopped : (k.timer (k.thread t).thread_timer).activated ≡ false

-- The cleanup functions leave the queues and the timers as they are.
pub record IsQuiet (app : App) : Type 0 where
  pub queues : (t : ℕ) (k : Kernel) → SameQueues k (thread_cleanup_execute app t k)
  pub timers : (t : ℕ) (k : Kernel) → (thread_cleanup_execute app t k).timer_list ≡ k.timer_list

module _ (k : Kernel) (t : ℕ) (i : IsScheduled k)
    (started : has_stat thread_init (k.thread t) ≡ false) where
  abbrev closed : Kernel
  closed = close_stat t (remove_thread t k)

  retired : IsScheduled (retire thread_close t k)
  retired = retire-IsScheduled k thread_close t i started (omega arith) (omega arith) (omega arith)

  closed-waiting :
      (u o : ℕ)
      → mem u (closed.suspend_list o) ≡ true
      → has_stat thread_suspend (closed.thread u) ≡ true
  closed-waiting u o m =
      let off =
        retire-alone k thread_close t i started (omega arith) (omega arith) (omega arith) o in
      ground (arith, retired.waiting u o, off)

  closed-IsScheduled : IsScheduled closed
  closed-IsScheduled = record {
    fits = retired.fits;
    group = retired.group;
    queued = λ u p. ground (arith, retired.queued u p);
    once = retired.once;
    masks = λ u h. ground (arith, retired.masks u);
    waiting = closed-waiting;
    waiting_once = retired.waiting_once;
  }

timer_detach-SameQueues : (m : ℕ) (k : Kernel) → SameQueues k (timer_detach m k).1
unfolding timer_detach
timer_detach-SameQueues m k = ground arith

-- A kernel with the queues that the closed thread leaves
module _ (k l : Kernel) (t : ℕ) (i : IsScheduled k)
    (started : has_stat thread_init (k.thread t) ≡ false)
    (same : SameQueues (closed k t i started) l) where
  ended-IsClosed :
      mem (k.thread t).thread_timer l.timer_list ≡ false
      → (l.timer (k.thread t).thread_timer).activated ≡ false
      → IsClosed l t
  unfolding remove_thread
  ended-IsClosed off still = record {
    stat = ground (arith, same.thread);
    unqueued = λ p. ground (
      arith,
      same.priority_table,
      i.once p,
      i.queued t p,
      mem-remove_self t (k.priority_table p),
    );
    alone = λ o.
        ground (arith, same.suspend_list, i.waiting_once o, mem-remove_self t (k.suspend_list o));
    no_timer = ground (arith, same.thread, off);
    stopped = ground (arith, same.thread, still);
  }

  ended-IsScheduled : IsScheduled l
  ended-IsScheduled = SameQueues-IsScheduled same (closed-IsScheduled k t i started)

module _ (app : App) (quiet : IsQuiet app) (k : Kernel) (t : ℕ) (i : IsScheduled k)
    (started : has_stat thread_init (k.thread t) ≡ false) (once : nodup k.timer_list ≡ true) where
  -- The kernel at the end of `rt_thread_exit`, before the scheduler is called.
  abbrev exiting : Kernel
  exiting =
      let k1 = close_stat t (remove_thread t (thread_cleanup_execute app t k)) in
      (timer_detach (k1.thread t).thread_timer k1).1

  exiting-same : SameQueues (closed k t i started) exiting
  unfolding timer_detach remove_thread
  exiting-same = ground (arith, quiet.queues t k)

  exiting-timer :
      (mem (k.thread t).thread_timer exiting.timer_list ≡ false)
      × ((exiting.timer (k.thread t).thread_timer).activated ≡ false)
  unfolding timer_detach remove_thread
  exiting-timer = ground (
    arith,
    (quiet.queues t k).thread,
    quiet.timers t k,
    mem-remove_self (k.thread t).thread_timer k.timer_list once,
  )

  -- The kernel at the end of `rt_thread_detach`.
  abbrev detached : Kernel
  detached =
      let k2 = thread_cleanup_execute app t (remove_thread t k) in
      close_stat t (timer_detach (k2.thread t).thread_timer k2).1

  detached-same : SameQueues (closed k t i started) detached
  unfolding timer_detach remove_thread
  detached-same = ground (arith, quiet.queues t (remove_thread t k))

  detached-timer :
      (mem (k.thread t).thread_timer detached.timer_list ≡ false)
      × ((detached.timer (k.thread t).thread_timer).activated ≡ false)
  unfolding timer_detach remove_thread
  detached-timer = ground (
    arith,
    (quiet.queues t (remove_thread t k)).thread,
    quiet.timers t (remove_thread t k),
    mem-remove_self (k.thread t).thread_timer k.timer_list once,
  )

-- rt_thread_exit of a running thread that was started, in a consistent kernel with no timer twice in the row
-- and with cleanup functions that leave the queues and timers alone: the thread is closed, out of every list,
-- its timer stopped; it is the first defunct thread unless it is a static object; the queues stay consistent,
-- and the scheduler is called last.
pub thread_exit-IsClosed :
    (app : App) (defunct : List ℕ) (k : Kernel) (t : ℕ)
    → IsQuiet app
    → IsScheduled k
    → k.current_thread ≡ some t
    → has_stat thread_init (k.thread t) ≡ false
    → nodup k.timer_list ≡ true
    → let (defunct', k') = thread_exit app defunct k in
      IsClosed k' t
      × IsScheduled k'
      × (defunct' ≡ (if app.is_system t then defunct else t ∷ defunct))
      × ((l : Kernel) × SameQueues l k' × (k' ≡ schedule l))
unfolding thread_exit
thread_exit-IsClosed app defunct k t quiet i current started once =
    let e = exiting app quiet k t i started once in
    let same = exiting-same app quiet k t i started once in
    let (off, still) = exiting-timer app quiet k t i started once in
    let c = ended-IsClosed k e t i started same off still in
    let s = schedule-same e in
    let end : thread_exit app defunct k ≡ (bury app t defunct, schedule e) =
      ground (arith, current) in
    rw end (
      record {
        stat = ground (arith, s.thread, c.stat);
        unqueued = λ p. ground (arith, s.priority_table, c.unqueued p);
        alone = λ o. ground (arith, s.suspend_list, c.alone o);
        no_timer = ground (arith, s.thread, s.timer_list, c.no_timer);
        stopped = ground (arith, s.thread, s.timer, c.stopped);
      },
      schedule-IsScheduled e (ended-IsScheduled k e t i started same),
      refl,
      (e, ground (arith, s), refl),
    )

-- rt_thread_detach in a consistent kernel with no timer twice in the row and with cleanup functions that leave
-- the queues and timers alone: a thread that is closed stays as it is, and nothing changes; any other that was
-- started is closed, out of every list, its timer stopped, it is the first defunct thread unless it is a static
-- object, and the queues stay consistent.
pub thread_detach-cases :
    (app : App) (t : ℕ) (defunct : List ℕ) (k : Kernel)
    → IsQuiet app
    → IsScheduled k
    → nodup k.timer_list ≡ true
    → let (result, defunct', k') = thread_detach app t defunct k in
      (result ≡ eok)
      × (has_stat thread_close (k.thread t) ≡ true → (defunct' ≡ defunct) × (k' ≡ k))
      × (has_stat thread_close (k.thread t) ≡ false
          → has_stat thread_init (k.thread t) ≡ false
          → IsClosed k' t
            × IsScheduled k'
            × (defunct' ≡ (if app.is_system t then defunct else t ∷ defunct)))
unfolding thread_detach
thread_detach-cases app t defunct k quiet i once = (
  ground arith,
  (λ over. ground (arith, over)),
  (λ alive started.
      let d = detached app quiet k t i started once in
      let same = detached-same app quiet k t i started once in
      let (off, still) = detached-timer app quiet k t i started once in
      let end : thread_detach app t defunct k ≡ (eok, bury app t defunct, d) =
        ground (arith, alive, started) in
      rw end (
        ended-IsClosed k d t i started same off still,
        ended-IsScheduled k d t i started same,
        refl,
      )),
)
