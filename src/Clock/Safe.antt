-- ===== src/Clock/Safe.antt =====
-- The clock interrupt keeps the kernel consistent: a running timer of a thread belongs to a thread
-- that is suspended, so that its timeout readies that thread once.
use lltrisc_v.Prelude.{
  ℕ, ◌≡◌, refl, Bool, true, false, List, [], ◌∷◌, arith, if◌then◌else◌, mem, nodup, mem-remove_ne,
  mem-remove_self, nodup-remove,
}
use lltrisc_v.Kernel.State.{
  Kernel, Timeout, thread_timeout, callback, has_stat, thread_suspend, etimeout,
}
use lltrisc_v.Kernel.Lists.{set_timer, set_error, unlink}
use lltrisc_v.Scheduler.{insert_thread}
use lltrisc_v.Scheduler.Invariant.{IsScheduled}
use lltrisc_v.Scheduler.Highest.{SameQueues, SameQueues-IsScheduled, schedule-same}
use lltrisc_v.Timer.{expire, restart, fire, timer_unlink, timer_start}
use lltrisc_v.Timer.Order.{timer_start-runs}
use lltrisc_v.Thread.{timeout, run_timeout}
use lltrisc_v.Thread.Lifecycle.{timeout-IsScheduled}

-- Thread timers run once; each belongs to the thread that its timeout readies, and runs only while
-- that thread is suspended.
pub record IsTimed (k : Kernel) : Type 0 where
  pub scheduled : IsScheduled k
  pub owned :
      (m t : ℕ)
      → (k.timer m).timeout_func ≡ thread_timeout t
      → ((k.thread t).thread_timer ≡ m) × ((k.timer m).periodic ≡ false)
  pub pending :
      (m t : ℕ)
      → (k.timer m).timeout_func ≡ thread_timeout t
      → mem m k.timer_list ≡ true
      → has_stat thread_suspend (k.thread t) ≡ true
  pub distinct : nodup k.timer_list ≡ true

expire-IsTimed : (m : ℕ) (k : Kernel) → IsTimed k → IsTimed (expire m k)
unfolding expire timer_unlink
expire-IsTimed m k i = record {
  scheduled = SameQueues-IsScheduled (ground arith) i.scheduled;
  owned = λ n t e. ground (arith, i.owned n t);
  pending = λ n t e h. ground (
    arith,
    i.pending n t,
    i.distinct,
    mem-remove_ne n m k.timer_list,
    mem-remove_self m k.timer_list,
  );
  distinct = nodup-remove m k.timer_list i.distinct;
}

-- The timer that expired is in no list, so that its thread is not pending any more.
expire-gone : (m : ℕ) (k : Kernel) → IsTimed k → mem m (expire m k).timer_list ≡ false
unfolding expire timer_unlink
expire-gone m k i = mem-remove_self m k.timer_list i.distinct

timeout-IsTimed :
    (m t : ℕ) (k : Kernel)
    → IsTimed k
    → (k.timer m).timeout_func ≡ thread_timeout t
    → mem m k.timer_list ≡ false
    → has_stat thread_suspend (k.thread t) ≡ true
    → IsTimed (timeout t k)
unfolding timeout insert_thread
timeout-IsTimed m t k i e gone asleep =
    let k' = insert_thread t (unlink t (set_error t etimeout k)) in
    let q = schedule-same k' in
    record {
      scheduled = timeout-IsScheduled k t i.scheduled asleep;
      owned = λ n u f. ground (arith, q.thread, q.timer, i.owned n u);
      pending = λ n u f h.
          ground (
            arith,
            q.thread,
            q.timer,
            q.timer_list,
            i.owned n u,
            i.owned m t e,
            gone,
            i.pending n u,
          );
      distinct = ground (arith, q.timer_list, i.distinct);
    }

pub timer_start-timer :
    (m n : ℕ) (k : Kernel)
    → (((timer_start m k).timer n).timeout_func ≡ (k.timer n).timeout_func)
      × (((timer_start m k).timer n).periodic ≡ (k.timer n).periodic)
unfolding timer_start timer_unlink
timer_start-timer m n k = (ground arith, ground arith)

timer_start-SameQueues : (m : ℕ) (k : Kernel) → SameQueues k (timer_start m k)
unfolding timer_start timer_unlink
timer_start-SameQueues m k = ground arith

timer_start-IsTimed :
    (m : ℕ) (k : Kernel) → IsTimed k → (k.timer m).periodic ≡ true → IsTimed (timer_start m k)
timer_start-IsTimed m k i again =
    let q = timer_start-SameQueues m k in
    let (on, due, distinct, members) = timer_start-runs k m i.distinct in
    record {
      scheduled = SameQueues-IsScheduled q i.scheduled;
      owned = λ n t e. ground (arith, q.thread, i.owned n t, timer_start-timer m n k);
      pending = λ n t e h.
          ground (arith, q.thread, i.pending n t, i.owned n t, timer_start-timer m n k, members n);
      distinct = distinct;
    }

-- A write to the timers that only stops some.
stopped-IsTimed :
    (m : ℕ) (k : Kernel)
    → IsTimed k
    → IsTimed (set_timer m (record (k.timer m) { activated = false }) (timer_unlink m k))
unfolding timer_unlink
stopped-IsTimed m k i = record {
  scheduled = SameQueues-IsScheduled (ground arith) i.scheduled;
  owned = λ n t e. ground (arith, i.owned n t);
  pending = λ n t e h. ground (
    arith,
    i.pending n t,
    i.distinct,
    mem-remove_ne n m k.timer_list,
    mem-remove_self m k.timer_list,
  );
  distinct = nodup-remove m k.timer_list i.distinct;
}

unlinked-IsTimed : (m : ℕ) (k : Kernel) → IsTimed k → IsTimed (timer_unlink m k)
unfolding timer_unlink
unlinked-IsTimed m k i = record {
  scheduled = SameQueues-IsScheduled (ground arith) i.scheduled;
  owned = i.owned;
  pending = λ n t e h. ground (
    arith,
    i.pending n t,
    i.distinct,
    mem-remove_ne n m k.timer_list,
    mem-remove_self m k.timer_list,
  );
  distinct = nodup-remove m k.timer_list i.distinct;
}

pub IsTimed-if :
    (b : Bool) {x y : Kernel} → (b ≡ true → IsTimed x) → IsTimed y → IsTimed (if b then x else y)
IsTimed-if true f i = f refl
IsTimed-if false f i = i

restart-IsTimed : (m : ℕ) (k : Kernel) → IsTimed k → IsTimed (restart m k)
unfolding restart
restart-IsTimed m k i = ends k.fired_list refl
  where
    ends : (f : List ℕ) → k.fired_list ≡ f → IsTimed (restart m k)
    ends [] e = rw (e, restart) i
    ends (f ∷ fs) e =
        rw (e, restart)
          (IsTimed-if _
            (λ again. timer_start-IsTimed m _ (stopped-IsTimed m k i) (ground (arith, again)))
            (unlinked-IsTimed m k i))

pub cleared-IsTimed : (k : Kernel) → IsTimed k → IsTimed (record k { fired_list = [] })
cleared-IsTimed k i = record {
  scheduled = SameQueues-IsScheduled (ground arith) i.scheduled;
  owned = i.owned;
  pending = i.pending;
  distinct = i.distinct;
}

-- The functions of the application's timers: they keep the kernel consistent, and leave the timers and
-- the tick alone.
pub record IsQuiet (app : ℕ → ℕ → Kernel → Kernel) : Type 0 where
  pub timed : (f x : ℕ) (k : Kernel) → IsTimed k → IsTimed (app f x k)
  pub timer : (f x : ℕ) (k : Kernel) → (app f x k).timer ≡ k.timer
  pub timer_list : (f x : ℕ) (k : Kernel) → (app f x k).timer_list ≡ k.timer_list
  pub fired_list : (f x : ℕ) (k : Kernel) → (app f x k).fired_list ≡ k.fired_list
  pub tick : (f x : ℕ) (k : Kernel) → (app f x k).tick ≡ k.tick

-- What no call of a timer changes.
pub record SameTimers (k l : Kernel) : Type 0 where
  pub timer : l.timer ≡ k.timer
  pub timer_list : l.timer_list ≡ k.timer_list
  pub fired_list : l.fired_list ≡ k.fired_list
  pub tick : l.tick ≡ k.tick

timeout-SameTimers : (t : ℕ) (k : Kernel) → SameTimers k (timeout t k)
unfolding timeout insert_thread
timeout-SameTimers t k =
    ground (arith, schedule-same (insert_thread t (unlink t (set_error t etimeout k))))

module _ (app : ℕ → ℕ → Kernel → Kernel) (quiet : IsQuiet app) where
  pub run_timeout-SameTimers : (f : Timeout) (k : Kernel) → SameTimers k (run_timeout app f k)
  unfolding run_timeout
  run_timeout-SameTimers (thread_timeout t) k = timeout-SameTimers t k
  run_timeout-SameTimers (callback f x) k =
      ground
        (arith, quiet.timer f x k, quiet.timer_list f x k, quiet.fired_list f x k, quiet.tick f x k)

  run_timeout-IsTimed :
      (m : ℕ) (f : Timeout) (k : Kernel)
      → IsTimed k
      → (k.timer m).timeout_func ≡ f
      → mem m k.timer_list ≡ false
      → ((t : ℕ) → f ≡ thread_timeout t → has_stat thread_suspend (k.thread t) ≡ true)
      → IsTimed (run_timeout app f k)
  unfolding run_timeout
  run_timeout-IsTimed m (thread_timeout t) k i e gone asleep =
      timeout-IsTimed m t k i e gone (asleep t refl)
  run_timeout-IsTimed m (callback f x) k i e gone asleep = quiet.timed f x k i

  expire-asleep :
      (m : ℕ) (k : Kernel)
      → IsTimed k
      → mem m k.timer_list ≡ true
      → (t : ℕ) → (k.timer m).timeout_func ≡ thread_timeout t
      → has_stat thread_suspend ((expire m k).thread t) ≡ true
  unfolding expire timer_unlink
  expire-asleep m k i h t e = i.pending m t e h

  expire-func :
      (m : ℕ) (k : Kernel) → ((expire m k).timer m).timeout_func ≡ (k.timer m).timeout_func
  unfolding expire timer_unlink
  expire-func m k = ground arith

  -- One timer of `rt_timer_check` keeps the kernel consistent.
  pub fire-IsTimed :
      (m : ℕ) (k : Kernel)
      → IsTimed k
      → mem m k.timer_list ≡ true
      → IsTimed (fire (run_timeout app) m k)
  unfolding fire
  fire-IsTimed m k i h = restart-IsTimed m _ (
      run_timeout-IsTimed m (k.timer m).timeout_func (expire m k) (expire-IsTimed m k i)
        (expire-func m k) (expire-gone m k i) (expire-asleep m k i h))
