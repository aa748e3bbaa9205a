-- ===== src/Examples/Queues.antt =====
-- The theorems on message queues, at a queue of three blocks of eight bytes.
use lltrisc_v.Prelude.{ℕ, ◌%◌, ◌≡◌, inl, inr, refl, [], ◌∷◌, none, arith}
use lltrisc_v.Kernel.State.{eok}
use lltrisc_v.Memory.{Memory, IsBytes}
use lltrisc_v.Ipc.{returns}
use lltrisc_v.Ipc.Mailbox.Queue.{woken}
use lltrisc_v.Ipc.MessageQueue.{MessageQueue, mq_init, align, link_last}
use lltrisc_v.Ipc.MessageQueue.Send.{mq_send_wait, mq_urgent}
use lltrisc_v.Ipc.MessageQueue.Receive.{mq_recv}
use lltrisc_v.Ipc.MessageQueue.Chain.{IsQueue, bytes, messages}
use lltrisc_v.Ipc.MessageQueue.Links.{put_last, put_last-IsQueue}
use lltrisc_v.Ipc.MessageQueue.Sending.{mq_send_wait-cases, mq_urgent-cases}
use lltrisc_v.Ipc.MessageQueue.Receiving.{mq_recv-cases, mq_recv-mq_send_wait}
use lltrisc_v.Ipc.MessageQueue.Life.{mq_init-IsQueue}
use lltrisc_v.Examples.States.{running, running-current}

abbrev ramp : Memory
ramp = λ a. a % 256

ramp-IsBytes : IsBytes ramp
ramp-IsBytes a = omega arith

abbrev empty_queue : MessageQueue
empty_queue = (mq_init 20 21 1000 6 40 0 (λ a. none) running).0

empty_queue-IsQueue : IsQueue empty_queue [] (1024 ∷ 1012 ∷ 1000 ∷ [])
unfolding mq_init align
empty_queue-IsQueue = mq_init-IsQueue 20 21 1000 6 40 0 (λ a. none) running

size_of : empty_queue.msg_size ≡ 8
unfolding mq_init align
size_of = refl

mq_send_wait-cases_example :
    let (o, q', m', k') = mq_send_wait empty_queue 100 5 0 ramp running in
    (o ≡ returns eok)
    × IsQueue q' (1024 ∷ []) (1012 ∷ 1000 ∷ [])
    × (messages m' empty_queue.msg_size (1024 ∷ []) ≡ bytes m' 1028 empty_queue.msg_size ∷ [])
    × (bytes m' 1028 5 ≡ bytes ramp 100 5)
    × (k' ≡ woken empty_queue.suspend_thread running)
mq_send_wait-cases_example =
    (mq_send_wait-cases empty_queue [] (1024 ∷ 1012 ∷ 1000 ∷ []) empty_queue-IsQueue 100 5 0 1 ramp
        running ramp-IsBytes running-current).1
      1024 (1012 ∷ 1000 ∷ []) (omega (arith, size_of)) refl (inr (omega arith))

mq_urgent-cases_example :
    let (o, q', m', k') = mq_urgent empty_queue 100 5 ramp running in
    (o ≡ returns eok)
    × IsQueue q' (1024 ∷ []) (1012 ∷ 1000 ∷ [])
    × (messages m' empty_queue.msg_size (1024 ∷ []) ≡ bytes m' 1028 empty_queue.msg_size ∷ [])
    × (bytes m' 1028 5 ≡ bytes ramp 100 5)
    × (k' ≡ woken empty_queue.suspend_thread running)
mq_urgent-cases_example =
    (mq_urgent-cases empty_queue [] (1024 ∷ 1012 ∷ 1000 ∷ []) empty_queue-IsQueue 100 5 ramp running
        ramp-IsBytes).1
      1024 (1012 ∷ 1000 ∷ []) (omega (arith, size_of)) refl (inr (omega arith))

abbrev one_sent : MessageQueue
one_sent = put_last empty_queue 1024

one_sent-IsQueue : IsQueue one_sent (1024 ∷ []) (1012 ∷ 1000 ∷ [])
one_sent-IsQueue = put_last-IsQueue empty_queue 1024 [] (1012 ∷ 1000 ∷ []) empty_queue-IsQueue

mq_recv-cases_example :
    let (o, q', m', k') = mq_recv one_sent 200 5 0 ramp running in
    (o ≡ returns eok)
    × IsQueue q' [] (1024 ∷ 1012 ∷ 1000 ∷ [])
    × (messages m' one_sent.msg_size [] ≡ [])
    × (bytes m' 200 5 ≡ bytes ramp 1028 5)
    × (k' ≡ woken one_sent.suspend_sender_thread running)
unfolding link_last mq_init align
mq_recv-cases_example =
    (mq_recv-cases one_sent (1024 ∷ []) (1012 ∷ 1000 ∷ []) one_sent-IsQueue 200 5 0 1 ramp running
        ramp-IsBytes running-current (λ x there. inl (ground (arith, there)))).0
      1024 [] refl

mq_recv-mq_send_wait_example :
    let (o, q', m', k') = mq_send_wait empty_queue 100 5 0 ramp running in
    let (o2, q2, m2, k2) = mq_recv q' 200 5 0 m' k' in
    (o ≡ returns eok)
    × (o2 ≡ returns eok)
    × IsQueue q2 [] (1024 ∷ 1012 ∷ 1000 ∷ [])
    × (bytes m2 200 5 ≡ bytes ramp 100 5)
mq_recv-mq_send_wait_example =
    mq_recv-mq_send_wait empty_queue 1024 (1012 ∷ 1000 ∷ []) empty_queue-IsQueue 100 200 5 0 0 1
      ramp running ramp-IsBytes (omega (arith, size_of)) (inr (omega arith))
      (λ x there. inl (ground (arith, there)))

abbrev reset : ℕ
reset = 1
