-- ===== src/Examples/Events.antt =====
-- The theorems on events at concrete kernels.
use lltrisc_v.Prelude.{
  Option, Bool, if◌then◌else◌, [], ◌∷◌, ◌⊎◌, inr, sym, subst, ℕ, ◌≡◌, ◌≢◌, refl, false, some, none,
  arith, bit_or,
}
use lltrisc_v.Kernel.State.{Kernel, eok, error}
use lltrisc_v.Scheduler.{
  scheduler_init, scheduler_start, insert_thread, start_with, highest_ready_priority, remove_thread,
  schedule, switch_to, dispatch,
}
use lltrisc_v.Scheduler.Invariant.{IsScheduled}
use lltrisc_v.Bits.Ffs.{rt_ffs, lowest_bit_bitmap}
use lltrisc_v.Timer.{
  timer_init, timer_stop, timer_unlink, timer_control, timer_start, insert_sorted,
}
use lltrisc_v.Thread.{
  thread_init_call, thread_startup, thread_resume, thread_suspend_call, start_thread_timer,
}
use lltrisc_v.Ipc.{wait_in, ipc_list_suspend}
use lltrisc_v.Ipc.Event.{Event, event_send, event_recv, recv_by, recv_status, event_recv_resumed}
use lltrisc_v.Bits.{test_bit}
use lltrisc_v.Bits.Sets.{test_bit-bit_and}
use lltrisc_v.Ipc.Event.Bits.{IsMet}
use lltrisc_v.Ipc.Event.Delivery.{Woken, Kept}
use lltrisc_v.Ipc.Event.Offer.{Offered, event_send-cases}
use lltrisc_v.Ipc.Event.Receive.{
  Got, Missed, event_recv-cases, event_recv-IsScheduled, event_send-received,
}
use lltrisc_v.Examples.States.{
  running, running-IsScheduled, running-current, running-ready, running-once,
}

abbrev empty : Event
empty = record { suspend_thread = 4; flag = 0; set = 0 }

-- Bit 1 or bit 2, taken out when it has come.
abbrev some_of : ℕ
some_of = 6

abbrev bits_1_2 : ℕ
bits_1_2 = 6

abbrev ten_ticks : ℕ
ten_ticks = 10

-- Thread 1 waits for one of the two bits.
abbrev expecting : Kernel
expecting = (event_recv empty bits_1_2 some_of ten_ticks running).3

expecting-IsScheduled : IsScheduled expecting
expecting-IsScheduled =
    event_recv-IsScheduled empty bits_1_2 some_of ten_ticks 1 running running-IsScheduled
      running-current running-ready

event_recv-cases_example :
    Got empty bits_1_2 some_of 1 running (event_recv empty bits_1_2 some_of ten_ticks running)
    ⊎ Missed empty bits_1_2 some_of ten_ticks 1 running
        (event_recv empty bits_1_2 some_of ten_ticks running)
event_recv-cases_example =
    event_recv-cases empty bits_1_2 some_of ten_ticks 1 running running-IsScheduled running-current
      running-ready (omega arith) running-once (omega arith) (omega arith) (omega arith)

abbrev bits_2_3 : ℕ
bits_2_3 = 12

event_send-cases_example :
    let (code, e', k') = event_send empty 12 expecting in
    (bits_2_3 ≡ 0 → (code ≡ error) × (e' ≡ empty) × (k' ≡ expecting))
    × (bits_2_3 ≢ 0
        → (given : ℕ → Option ℕ) × (again : Bool) × (l : Kernel) × Offered expecting.thread
            (expecting.suspend_list 4)
            (bit_or 0 12)
            false
            given
            e'.set
            code
            again
          × (e' ≡ record empty { set = e'.set })
          × (k' ≡ (if again then schedule l else l))
          × IsScheduled k'
          × ((u bits : ℕ) → given u ≡ some bits → Woken u bits expecting k')
          × ((u : ℕ) → given u ≡ none → Kept u expecting k'))
event_send-cases_example =
    event_send-cases empty 12 expecting expecting-IsScheduled (omega arith) (omega arith)

expecting-row : expecting.suspend_list 4 ≡ 1 ∷ []
unfolding thread_init_call timer_init scheduler_init thread_startup thread_resume insert_thread
    timer_stop timer_unlink scheduler_start start_with highest_ready_priority rt_ffs
    lowest_bit_bitmap thread_suspend_call remove_thread start_thread_timer timer_control timer_start
    insert_sorted schedule switch_to dispatch wait_in ipc_list_suspend event_recv recv_by
    recv_status
expecting-row = refl

expecting-info : (expecting.thread 1).event_info ≡ 6
unfolding thread_init_call timer_init scheduler_init thread_startup thread_resume insert_thread
    timer_stop timer_unlink scheduler_start start_with highest_ready_priority rt_ffs
    lowest_bit_bitmap thread_suspend_call remove_thread start_thread_timer timer_control timer_start
    insert_sorted schedule switch_to dispatch wait_in ipc_list_suspend event_recv recv_by
    recv_status
expecting-info = refl

expecting-wanted : (expecting.thread 1).event_set ≡ 6
unfolding thread_init_call timer_init scheduler_init thread_startup thread_resume insert_thread
    timer_stop timer_unlink scheduler_start start_with highest_ready_priority rt_ffs
    lowest_bit_bitmap thread_suspend_call remove_thread start_thread_timer timer_control timer_start
    insert_sorted schedule switch_to dispatch wait_in ipc_list_suspend event_recv recv_by
    recv_status
expecting-wanted = refl

expecting-clear : (expecting.thread 1).error ≡ eok
unfolding thread_init_call timer_init scheduler_init thread_startup thread_resume insert_thread
    timer_stop timer_unlink scheduler_start start_with highest_ready_priority rt_ffs
    lowest_bit_bitmap thread_suspend_call remove_thread start_thread_timer timer_control timer_start
    insert_sorted schedule switch_to dispatch wait_in ipc_list_suspend event_recv recv_by
    recv_status
expecting-clear = refl

-- Bit 2 of the two is there.
met : IsMet 6 6 12 4
unfolding test_bit
met = inr ((refl, refl), (2, refl, refl), λ p. test_bit-bit_and 6 12 p)

expecting-IsMet :
    IsMet (expecting.thread 1).event_info (expecting.thread 1).event_set (bit_or 0 12) 4
expecting-IsMet =
    subst (λ info. IsMet info (expecting.thread 1).event_set 12 4) (sym expecting-info)
      (subst (λ wanted. IsMet 6 wanted 12 4) (sym expecting-wanted) met)

event_send-received_example :
    (got : ℕ) × IsMet
      (expecting.thread 1).event_info
      (expecting.thread 1).event_set
      (bit_or 0 12)
      got
    × (event_recv_resumed 1 (event_send empty 12 expecting).2 ≡ (eok, some got))
event_send-received_example =
    event_send-received empty 12 expecting 1 4 [] expecting-IsScheduled (omega arith) (omega arith)
      (omega arith) expecting-row expecting-clear expecting-IsMet
