-- ===== src/Examples/Objects.antt =====
-- The theorems on semaphores and mailboxes at concrete kernels.
use lltrisc_v.Prelude.{
  ◌/◌, ℕ, ◌+◌, ◌-◌, ◌≤◌, ◌<◌, ◌≡◌, ◌≢◌, refl, true, List, [], ◌∷◌, ◌++◌, some, none, arith,
}
use lltrisc_v.Kernel.State.{Thread, Kernel, eok, etimeout, efull, has_stat, thread_ready}
use lltrisc_v.Kernel.Lists.{set_error}
use lltrisc_v.Ipc.{returns, waits, wait_in}
use lltrisc_v.Ipc.Waiting.{Waits}
use lltrisc_v.Ipc.Sem.{Semaphore, sem_take, sem_release, sem_value_max}
use lltrisc_v.Ipc.Sem.Counting.{IsCounting, sem_take-cases, sem_release-cases, sem_take-IsCounting}
use lltrisc_v.Ipc.Mailbox.{Mailbox, mb_send_wait, mb_recv}
use lltrisc_v.Ipc.Mailbox.Queue.{IsRing, contents, woken, mb_send_wait-cases, mb_recv-cases}
use lltrisc_v.Examples.States.{
  running, running-IsScheduled, running-current, running-ready, running-once,
}

abbrev no_wait : ℕ
no_wait = 0

abbrev ten_ticks : ℕ
ten_ticks = 10

abbrev some_reset : ℕ
some_reset = 1

-- A semaphore of value 0 whose threads wait by priority.
abbrev taken : Semaphore
taken = record { suspend_thread = 6; flag = 1; value = 0 }

taken-IsCounting : IsCounting taken running
taken-IsCounting = record {
  scheduled = running-IsScheduled;
  range = omega arith;
  free = λ h. absurd (omega arith);
}

-- Thread 1 waits for it, ten ticks at most.
abbrev blocked : Kernel
blocked = (sem_take taken 10 running).2

blocked-IsCounting : let r = sem_take taken 10 running in IsCounting r.1 r.2
blocked-IsCounting =
    sem_take-IsCounting taken 10 1 running taken-IsCounting running-current running-ready

sem_take-cases_example :
    let (o, s', k') = sem_take taken 10 running in
    (0 < taken.value
      → (o ≡ returns eok) × (s' ≡ record taken { value = taken.value - 1 }) × (k' ≡ running))
    × (taken.value ≡ 0 → ten_ticks ≡ 0 → (o ≡ returns etimeout) × (s' ≡ taken) × (k' ≡ running))
    × (taken.value ≡ 0
        → ten_ticks ≢ 0
        → (o ≡ waits)
          × (s' ≡ taken)
          × ((k'.thread 1).error ≡ eok)
          × Waits (set_error 1 eok running) 6 1 1 10 k')
sem_take-cases_example =
    sem_take-cases taken 10 1 running running-IsScheduled running-once running-current running-ready
      (omega arith)

sem_release-cases_example :
    let (e, s', k') = sem_release taken blocked in
    ((t : ℕ) (ts : List ℕ)
      → blocked.suspend_list 6 ≡ t ∷ ts
      → (e ≡ eok)
        × (s' ≡ taken)
        × (k'.suspend_list 6 ≡ ts)
        × (has_stat thread_ready (k'.thread t) ≡ true)
        × ((k'.thread t).error ≡ (blocked.thread t).error)
        × (k'.priority_table (blocked.thread t).current_priority
            ≡ blocked.priority_table (blocked.thread t).current_priority ++ t ∷ []))
    × (blocked.suspend_list 6 ≡ []
        → taken.value < sem_value_max
        → (e ≡ eok) × (s' ≡ record taken { value = taken.value + 1 }) × (k' ≡ blocked))
    × (blocked.suspend_list 6 ≡ []
        → sem_value_max ≤ taken.value
        → (e ≡ efull) × (s' ≡ taken) × (k' ≡ blocked))
sem_release-cases_example = sem_release-cases taken blocked blocked-IsCounting.scheduled

-- A mailbox of two words with one message, at the end of the pool.
abbrev one_message : Mailbox
one_message = record {
  suspend_thread = 8;
  suspend_sender_thread = 9;
  flag = 0;
  msg_pool = λ i. i + 40;
  size = 2;
  entry = 1;
  in_offset = 0;
  out_offset = 1;
}

one_message-IsRing : IsRing one_message
one_message-IsRing = record {
  size_fits = omega arith;
  out_fits = omega arith;
  entry_fits = omega arith;
  in_place = refl;
}

mb_send_wait-cases_example :
    let (o, m', k') = mb_send_wait one_message 77 0 running in
    (one_message.entry < one_message.size
      → (o ≡ returns eok)
        × (contents m' ≡ contents one_message ++ 77 ∷ [])
        × IsRing m'
        × (k' ≡ woken 8 running))
    × (one_message.entry ≡ one_message.size
        → no_wait ≡ 0
        → (o ≡ returns efull) × (m' ≡ one_message) × (k' ≡ running))
    × (one_message.entry ≡ one_message.size
        → no_wait ≢ 0
        → (o ≡ waits) × (m' ≡ one_message) × (k' ≡ wait_in 9 1 0 0 (set_error 1 eok running)))
mb_send_wait-cases_example =
    mb_send_wait-cases one_message one_message-IsRing 77 0 1 running running-current

mb_recv-cases_example :
    let (o, v, m', k') = mb_recv one_message 0 running in
    (0 < one_message.entry
      → (o ≡ returns eok)
        × ((x : ℕ) × (v ≡ some x) × (contents one_message ≡ x ∷ contents m'))
        × IsRing m'
        × (k' ≡ woken 9 running))
    × (one_message.entry ≡ 0
        → no_wait ≡ 0
        → (o ≡ returns etimeout) × (v ≡ none) × (m' ≡ one_message) × (k' ≡ running))
    × (one_message.entry ≡ 0
        → no_wait ≢ 0
        → (o ≡ waits)
          × (v ≡ none)
          × (m' ≡ one_message)
          × (k' ≡ wait_in 8 1 0 0 (set_error 1 eok running)))
mb_recv-cases_example = mb_recv-cases one_message one_message-IsRing 0 1 running running-current

-- Threads whose priority is the tens digit of their number.
abbrev by_tens : ℕ → Thread
by_tens t = record (running.thread t) { current_priority = t / 10 }
