-- ===== src/Ipc/Event/Receive.antt =====
-- `rt_event_recv`: what a thread gets at once, how it waits, and what it returns when it was woken.
use lltrisc_v.Prelude.{
  ℕ, ◌^◌, ◌<◌, ap, sym, subst, ◌∙◌, ◌⊎◌, List, ◌∷◌, Option, Bool, if◌then◌else◌, ==→eq, ==_refl,
  ◌≡◌, ◌≢◌, refl, true, false, some, none, arith, ◌==◌, nodup, Bool-cases, inl, inr, bit_and,
  bit_or,
}
use lltrisc_v.Kernel.State.{Kernel, Thread, eok, etimeout, has_stat, thread_ready}
use lltrisc_v.Kernel.Lists.{set_error, set_thread}
use lltrisc_v.Scheduler.{remove_thread}
use lltrisc_v.Scheduler.Highest.{schedule-same}
use lltrisc_v.Timer.{timer_stop, timer_unlink}
use lltrisc_v.Thread.{thread_suspend_call, start_thread_timer}
use lltrisc_v.Thread.Invariant.{start_thread_timer-SameQueues}
use lltrisc_v.Scheduler.Invariant.{IsScheduled}
use lltrisc_v.Ipc.{Outcome, returns, waits, wait_in, ipc_list_suspend, is_positive}
use lltrisc_v.Ipc.Suspend.{set_error-IsScheduled, wait_in-IsScheduled}
use lltrisc_v.Ipc.Waiting.{IsFlag, Waits, wait_in-Waits}
use lltrisc_v.Ipc.Event.{
  Event, take_bits, event_recv, recv_by, recv_status, with_info, event_recv_resumed, event_send,
}
use lltrisc_v.Ipc.Event.Bits.{
  IsMet, IsUnmet, IsLeft, WantsNothing, IsMet-once, recv_status-IsMet, recv_status-IsUnmet,
  recv_status-IsLeft,
}
use lltrisc_v.Ipc.Event.Delivery.{Woken}
use lltrisc_v.Ipc.Event.Offer.{Offered, event_send-cases}

module _ (t option wanted : ℕ) (k : Kernel) (i : IsScheduled k) where
  noted-IsScheduled : IsScheduled (with_info t option wanted (set_error t eok k))
  noted-IsScheduled = record {
    fits = i.fits;
    group = i.group;
    queued = λ u p. ground (arith, i.queued u p);
    once = i.once;
    masks = λ u h. ground (arith, i.masks u);
    waiting = λ u o h. ground (arith, i.waiting u o);
    waiting_once = i.waiting_once;
  }

module _ (e : Event) (wanted option t : ℕ) (k : Kernel) (i : IsScheduled k)
    (current : k.current_thread ≡ some t) (ready : has_stat thread_ready (k.thread t) ≡ true)
    (some_bits : wanted ≢ 0) where
  slow_recv :
      (timeout : ℕ)
      → recv_status option wanted e.set ≡ false
      → timeout ≢ 0
      → event_recv e wanted option timeout k ≡ (
        waits,
        none,
        e,
        wait_in e.suspend_thread t e.flag timeout (with_info t option wanted (set_error t eok k)),
      )
  unfolding event_recv recv_by
  slow_recv timeout missing n = ground (arith, current, some_bits, missing)

-- A thread that starts to wait keeps what it noted.
suspend_notes :
    (k : Kernel) (o t flag : ℕ)
    → let k' = ipc_list_suspend o t flag k in
      ((k'.thread t).event_set ≡ (k.thread t).event_set)
      × ((k'.thread t).event_info ≡ (k.thread t).event_info)
unfolding ipc_list_suspend thread_suspend_call timer_stop timer_unlink remove_thread
suspend_notes k o t flag = ground arith

wait_notes :
    (k : Kernel) (o t flag time : ℕ)
    → let k' = wait_in o t flag time k in
      ((k'.thread t).event_set ≡ (k.thread t).event_set)
      × ((k'.thread t).event_info ≡ (k.thread t).event_info)
unfolding wait_in
wait_notes k o t flag time =
    let l = ipc_list_suspend o t flag k in
    let m : Kernel = if is_positive time then start_thread_timer t time l else l in
    let (set, info) = suspend_notes k o t flag in
    let q = start_thread_timer-SameQueues t time l in
    let same : m.thread ≡ l.thread = ground (arith, q.thread) in
    let e = (schedule-same m).thread ∙ same in
    (
      ap (λ (f : ℕ → Thread). (f t).event_set) e ∙ set,
      ap (λ (f : ℕ → Thread). (f t).event_info) e ∙ info,
    )

-- The kernel with the thread's notes in its control block and its error clear.
abbrev pub noted : (t option bits : ℕ) → Kernel → Kernel
noted t option bits k =
    set_thread t (record ((set_error t eok k).thread t) { event_set = bits; event_info = option })
      (set_error t eok k)

-- What `rt_event_recv` comes to where the bits are there.
abbrev pub Got :
    Event → (wanted option t : ℕ) → Kernel → Outcome × Option ℕ × Event × Kernel → Type 0
Got e wanted option t k (o, v, e', k') =
    (got : ℕ) × IsMet option wanted e.set got
    × IsLeft option got e.set e'.set
    × (o ≡ returns eok)
    × (v ≡ some got)
    × (e' ≡ record e { set = e'.set })
    × (k' ≡ noted t option got k)

-- What it comes to where they are not there, or the option asks for neither all nor some.
abbrev pub Missed :
    Event → (wanted option timeout t : ℕ) → Kernel → Outcome × Option ℕ × Event × Kernel → Type 0
Missed e wanted option timeout t k (o, v, e', k') =
    (IsUnmet option wanted e.set ⊎ WantsNothing option)
    × (v ≡ none)
    × (e' ≡ e)
    × (((timeout ≡ 0) × (o ≡ returns etimeout) × (k' ≡ set_error t etimeout (set_error t eok k)))
        ⊎ ((timeout ≢ 0)
            × (o ≡ waits)
            × ((k'.thread t).event_set ≡ wanted)
            × ((k'.thread t).event_info ≡ option)
            × Waits (noted t option wanted k) e.suspend_thread t e.flag timeout k'))

-- `rt_event_recv` of a set that is not empty, by the running thread, which is ready, in a consistent state
-- with no timer twice in the row, of an event with one of the two queueing flags, both sets of 32 bits: if all
-- wanted bits are there, or some, as the option says, the thread gets those at once, with the option CLEAR they
-- are taken out of the event, and they are noted in the thread; else it is a timeout if the call may not wait,
-- and if it may, the thread notes what it wants and is suspended in its place in the list, its timer started
-- for a positive time.
pub event_recv-cases :
    (e : Event) (wanted option timeout t : ℕ) (k : Kernel)
    → IsScheduled k
    → k.current_thread ≡ some t
    → has_stat thread_ready (k.thread t) ≡ true
    → wanted ≢ 0
    → nodup k.timer_list ≡ true
    → IsFlag e.flag
    → e.set < 2 ^ 32
    → wanted < 2 ^ 32
    → Got e wanted option t k (event_recv e wanted option timeout k)
      ⊎ Missed e wanted option timeout t k (event_recv e wanted option timeout k)
unfolding event_recv recv_by
event_recv-cases e wanted option timeout t k i current ready some_bits once known small wide =
    elim (Bool-cases (recv_status option wanted e.set)) [
      | inl there ↦
          let got = bit_and e.set wanted in
          let left = take_bits option wanted e.set in
          let run : event_recv e wanted option timeout k
              ≡ (returns eok, some got, record e { set = left }, noted t option got k) =
            ground (arith, current, some_bits, there) in
          inl (
            subst (Got e wanted option t k) (sym run) (
              got,
              recv_status-IsMet option wanted e.set there,
              recv_status-IsLeft option wanted e.set small wide,
              refl,
              refl,
              refl,
              refl,
            ))
      | inr missing ↦
          let unmet = recv_status-IsUnmet option wanted e.set missing in
          elim (Bool-cases (timeout == 0)) [
            | inl z ↦
                let run : event_recv e wanted option timeout k
                    ≡ (returns etimeout, none, e, set_error t etimeout (set_error t eok k)) =
                  ground (arith, current, some_bits, missing, z) in
                inr (
                  subst (Missed e wanted option timeout t k) (sym run)
                    (unmet, refl, refl, inl (==→eq timeout 0 z, refl, refl)))
            | inr n ↦
                let start = noted t option wanted k in
                let run =
                  slow_recv e wanted option t k i current ready some_bits timeout missing
                    (ground (arith, n)) in
                let (set, info) = wait_notes start e.suspend_thread t e.flag timeout in
                let w =
                  wait_in-Waits start e.suspend_thread t e.flag
                    (noted-IsScheduled t option wanted k i) (ground (arith, ready)) known timeout
                    once in
                inr (
                  subst (Missed e wanted option timeout t k) (sym run) (
                    unmet,
                    refl,
                    refl,
                    inr (
                      (ground (arith, n)),
                      refl,
                      set ∙ ground (arith, ==_refl t),
                      info ∙ ground (arith, ==_refl t),
                      w,
                    ),
                  ))
          ]
    ]

-- `rt_event_recv` by the running thread, which is ready, keeps the queues consistent, whether it
-- succeeds, fails or waits.
pub event_recv-IsScheduled :
    (e : Event) (wanted option timeout t : ℕ) (k : Kernel)
    → IsScheduled k
    → k.current_thread ≡ some t
    → has_stat thread_ready (k.thread t) ≡ true
    → IsScheduled (event_recv e wanted option timeout k).3
unfolding event_recv recv_by
event_recv-IsScheduled e wanted option timeout t k i current ready =
    let cleared = set_error-IsScheduled k t eok i in
    elim (Bool-cases (wanted == 0)) [
      | inl z ↦ rw z i
      | inr z ↦ elim (Bool-cases (recv_status option wanted e.set)) [
        | inl there ↦ rw (z, current, there) (noted-IsScheduled t option (bit_and e.set wanted) k i)
        | inr missing ↦ elim (Bool-cases (timeout == 0)) [
          | inl n ↦ rw (z, current, missing, n) (set_error-IsScheduled _ t etimeout cleared)
          | inr n ↦
              rw (z, current, missing, n)
                (wait_in-IsScheduled _ e.suspend_thread t e.flag timeout
                  (noted-IsScheduled t option wanted k i) (ground (arith, ready)))
        ]
      ]
    ]

-- rt_event_send, in a consistent kernel, of a set that is not empty and to an event of 32 bits: the first of
-- the threads that wait, its error clear, returns RT_EOK from rt_event_recv when the bits that it wants, all or
-- some, are in the new set together with the event's, and what it receives are those bits.
pub event_send-received :
    (e : Event) (set : ℕ) (k : Kernel) (t bits : ℕ) (ts : List ℕ)
    → IsScheduled k
    → e.set < 2 ^ 32
    → set < 2 ^ 32
    → set ≢ 0
    → k.suspend_list e.suspend_thread ≡ t ∷ ts
    → (k.thread t).error ≡ eok
    → IsMet (k.thread t).event_info (k.thread t).event_set (bit_or e.set set) bits
    → (got : ℕ) × IsMet (k.thread t).event_info (k.thread t).event_set (bit_or e.set set) got
      × (event_recv_resumed t (event_send e set k).2 ≡ (eok, some got))
unfolding event_recv_resumed
event_send-received e set k t bits ts i old new some_bits row clear met =
    let (given, again, l, offered, same, run, still, woken, kept) =
      (event_send-cases e set k i old new).1 some_bits in
    let r = event_send e set k in
    first given again woken (
      subst (λ row. Offered k.thread row (bit_or e.set set) false given r.1.set r.0 again) row
        offered)
  where
    resumed :
        (got : ℕ)
        → ((event_send e set k).2.thread t).error ≡ (k.thread t).error
        → ((event_send e set k).2.thread t).event_set ≡ got
        → event_recv_resumed t (event_send e set k).2 ≡ (eok, some got)
    resumed got kept_error noted_set = ground (arith, kept_error, noted_set, clear)

    first :
        (given : ℕ → Option ℕ) (again : Bool)
        → ((u b : ℕ) → given u ≡ some b → Woken u b k (event_send e set k).2)
        → Offered k.thread
            (t ∷ ts)
            (bit_or e.set set)
            false
            given
            (event_send e set k).1.set
            (event_send e set k).0
            again
        → (got : ℕ) × IsMet (k.thread t).event_info (k.thread t).event_set (bit_or e.set set) got
          × (event_recv_resumed t (event_send e set k).2 ≡ (eok, some got))
    first given again woken (inl stopped) = cc (
        IsMet-once (k.thread t).event_info (k.thread t).event_set (bit_or e.set set) bits met
          (inr stopped.0))
    first given again woken (inr (inl passed)) = cc (
        IsMet-once (k.thread t).event_info (k.thread t).event_set (bit_or e.set set) bits met
          (inl passed.0))
    first given again woken (inr (inr (got, left, is_met, is_left, here, more))) =
        let w = woken t got here in (got, is_met, resumed got w.error w.bits_set)
