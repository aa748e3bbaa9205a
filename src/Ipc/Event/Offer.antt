-- ===== src/Ipc/Event/Offer.antt =====
-- `rt_event_send` against the offering of a set to the threads that wait, os/rt-thread-nano/src/ipc.c.
use lltrisc_v.Prelude.{
  ℕ, ◌^◌, ◌<◌, ◌≡◌, ◌≢◌, refl, ap, sym, subst, fun_ext, ◌∙◌, ◌⊎◌, inl, inr, Bool, true, false, List,
  [], ◌∷◌, Option, some, none, arith, ◌==◌, if◌then◌else◌, mem, nodup, Bool-cases, bit_or, ==_refl,
}
use lltrisc_v.Kernel.State.{Kernel, Thread, Err, eok, error, einval}
use lltrisc_v.Scheduler.{schedule, insert_thread}
use lltrisc_v.Scheduler.Invariant.{IsScheduled}
use lltrisc_v.Timer.{timer_stop, timer_unlink}
use lltrisc_v.Thread.{thread_resume}
use lltrisc_v.Bits.Sets.{or-fits}
use lltrisc_v.Ipc.Event.{
  Event, Match, matched, unmatched, invalid, event_match, take_bits, deliver, Sent, send_walk,
  event_send,
}
use lltrisc_v.Ipc.Event.Bits.{
  WantsNothing, IsMet, IsUnmet, IsLeft, event_match-matched, event_match-unmatched,
  event_match-invalid, event_match-fits, take_bits-IsLeft, take_bits-fits,
}
use lltrisc_v.Ipc.Event.Delivery.{awarded, award_next, awarded-absent, Woken, Kept, Walked}
use lltrisc_v.Ipc.Event.Send.{rest, send_walk-rest, send_walk-nil, Match-cases, event_send-Walked}

-- What the threads but one are given.
abbrev pub except : (t : ℕ) → (ℕ → Option ℕ) → ℕ → Option ℕ
except t given u = if t == u then none else given u

-- A set is offered to the threads in turn. What each is `given`, the set that is left, the code and whether the
-- scheduler is called, which it is if a thread was given bits. A thread that asks neither for all nor for some
-- bits ends it with -RT_EINVAL and no call.
abbrev pub Offered :
    (thread : ℕ → Thread)
    → List ℕ
    → (set : ℕ) (woke : Bool) (given : ℕ → Option ℕ) (set' : ℕ) (code : Err) (again : Bool) → Type 0
Offered thread [] set woke given set' code again =
    ((u : ℕ) → given u ≡ none) × (set' ≡ set) × (code ≡ eok) × (again ≡ woke)
Offered thread (t ∷ ts) set woke given set' code again =
    let info = (thread t).event_info in
    let wanted = (thread t).event_set in
    (WantsNothing info
      × ((u : ℕ) → given u ≡ none)
      × (set' ≡ set)
      × (code ≡ einval)
      × (again ≡ false))
    ⊎ ((IsUnmet info wanted set
          × (given t ≡ none)
          × Offered thread ts set woke given set' code again)
        ⊎ ((bits : ℕ) × (left : ℕ) × IsMet info wanted set bits
            × IsLeft info bits set left
            × (given t ≡ some bits)
            × Offered thread ts left true (except t given) set' code again))

deliver-others : (t bits u : ℕ) (k : Kernel) → u ≢ t → (deliver t bits k).thread u ≡ k.thread u
unfolding deliver thread_resume timer_stop timer_unlink insert_thread
deliver-others t bits u k h = ground arith

module _ (f : ℕ → Thread) (t : ℕ) (ts : List ℕ) (set : ℕ) (out : mem t ts ≡ false) where
  abbrev found : Match
  found = event_match (f t).event_info (f t).event_set set

  invalid-given : found ≡ invalid → (u : ℕ) → awarded f (t ∷ ts) set u ≡ none
  unfolding awarded award_next
  invalid-given e u = rw e refl

  unmatched-given : found ≡ unmatched → (u : ℕ) → awarded f (t ∷ ts) set u ≡ awarded f ts set u
  unfolding awarded award_next
  unmatched-given e u = elim (Bool-cases (t == u)) [
    | inl here ↦
        let absent : awarded f ts set u ≡ none =
          awarded-absent f ts set u (ground (arith, here, out)) in
        rw (e, here) (sym absent)
    | inr there ↦ rw (e, there) refl
  ]

  matched-given :
      (bits : ℕ)
      → found ≡ matched bits
      → (awarded f (t ∷ ts) set t ≡ some bits)
        × ((u : ℕ)
            → except t (awarded f (t ∷ ts) set) u
              ≡ awarded f ts (take_bits (f t).event_info bits set) u)
  unfolding awarded award_next
  matched-given bits e = (
    rw (e, ==_refl t) refl,
    λ u. elim (Bool-cases (t == u)) [
      | inl here ↦
          let left = take_bits (f t).event_info bits set in
          let absent : awarded f ts left u ≡ none =
            awarded-absent f ts left u (ground (arith, here, out)) in
          rw (here) (sym absent)
      | inr there ↦ rw (e, there) refl
    ],
  )

-- The result of the walk from a kernel that has the threads as they were.
abbrev WalkOffered : (ℕ → Thread) → List ℕ → ℕ → Bool → Sent → Type 0
WalkOffered f ts set need r = Offered f ts set need (awarded f ts set) r.set r.code r.need_schedule

send_walk-Offered :
    (f : ℕ → Thread) (ts : List ℕ) (set : ℕ) (need : Bool) (k : Kernel)
    → set < 2 ^ 32
    → nodup ts ≡ true
    → ((v : ℕ) → mem v ts ≡ true → k.thread v ≡ f v)
    → WalkOffered f ts set need (send_walk ts set need k)
unfolding rest awarded
send_walk-Offered f [] set need k h once same =
    rw (send_walk-nil set need k) ((λ u. refl), refl, refl, refl)
send_walk-Offered f (t ∷ ts) set need k h once same =
    let info = (f t).event_info in
    let out : mem t ts ≡ false = ground (arith, once) in
    let first = same t (ground (arith, ==_refl t)) in
    let kind : event_match (k.thread t).event_info (k.thread t).event_set set
        ≡ found f t ts set out =
      ap (λ (b : Thread). event_match b.event_info b.event_set set) first in
    elim (Match-cases (found f t ts set out)) [
      | inl e ↦
          subst (WalkOffered f (t ∷ ts) set need)
            (sym (send_walk-rest t ts set need k invalid (kind ∙ e)))
            (inl (
              event_match-invalid info (f t).event_set set e,
              invalid-given f t ts set out e,
              refl,
              refl,
              refl,
            ))
      | inr (inl e) ↦
          let later =
            send_walk-Offered f ts set need k h (ground (arith, once))
              (λ v m. same v (ground (arith, m))) in
          let r = send_walk ts set need k in
          let passed = fun_ext (unmatched-given f t ts set out e) in
          let nothing_here = unmatched-given f t ts set out e t ∙ awarded-absent f ts set t out in
          let tail =
            subst (λ g. Offered f ts set need g r.set r.code r.need_schedule) (sym passed) later in
          subst (WalkOffered f (t ∷ ts) set need)
            (sym (send_walk-rest t ts set need k unmatched (kind ∙ e)))
            (inr (inl (event_match-unmatched info (f t).event_set set e, nothing_here, tail)))
      | inr (inr (bits, e)) ↦
          let left = take_bits info bits set in
          let later =
            send_walk-Offered f ts left true (deliver t bits k) (take_bits-fits info bits set h)
              (ground (arith, once))
              (λ v m.
                deliver-others t bits v k (ground (arith, m, out)) ∙ same v (ground (arith, m))) in
          let r = send_walk ts left true (deliver t bits k) in
          let (here, others) = matched-given f t ts set out bits e in
          let tail =
            subst (λ g. Offered f ts left true g r.set r.code r.need_schedule)
              (sym (fun_ext others)) later in
          let run =
            send_walk-rest t ts set need k (matched bits) (kind ∙ e)
            ∙ ap
                (λ (b : Thread).
                  send_walk ts (take_bits b.event_info bits set) true (deliver t bits k))
                first in
          subst (WalkOffered f (t ∷ ts) set need) (sym run) (
            inr (
              inr (
                bits,
                left,
                event_match-matched info (f t).event_set set bits e,
                take_bits-IsLeft info bits set h
                    (event_match-fits info (f t).event_set set bits h e),
                here,
                tail,
              )))
    ]

-- rt_event_send in a consistent kernel, of a set and to an event of 32 bits: an empty set is an error and
-- changes nothing. Else the new set, together with the event's, is offered to the waiting threads in turn:
-- one that wants all of its bits, or some, is given them when they are there, and with CLEAR they are taken
-- out of the set for those behind it. The event keeps the set that is left, and the code is RT_EOK, or
-- -RT_EINVAL where a thread asks for neither, which ends the walk. A thread that is given bits is ready, in no
-- suspend list, with the bits noted and its error as it was; any other is as it was, in the same lists. The
-- kernel stays consistent, and the scheduler is called last if a thread was given bits and the walk did not
-- end early.
pub event_send-cases :
    (e : Event) (set : ℕ) (k : Kernel)
    → IsScheduled k
    → e.set < 2 ^ 32
    → set < 2 ^ 32
    → let (code, e', k') = event_send e set k in
      (set ≡ 0 → (code ≡ error) × (e' ≡ e) × (k' ≡ k))
      × (set ≢ 0
          → (given : ℕ → Option ℕ) × (again : Bool) × (l : Kernel) × Offered k.thread
              (k.suspend_list e.suspend_thread)
              (bit_or e.set set)
              false
              given
              e'.set
              code
              again
            × (e' ≡ record e { set = e'.set })
            × (k' ≡ (if again then schedule l else l))
            × IsScheduled k'
            × ((u bits : ℕ) → given u ≡ some bits → Woken u bits k k')
            × ((u : ℕ) → given u ≡ none → Kept u k k'))
unfolding event_send
event_send-cases e set k i old new = (
  (λ z. ground (arith, z)),
  (λ n.
      let ts = k.suspend_list e.suspend_thread in
      let all = bit_or e.set set in
      let r = send_walk ts all false k in
      let w = event_send-Walked e set k i n in
      let test : (set == 0) ≡ false = ground (arith, n) in
      let o =
        send_walk-Offered k.thread ts all false k (or-fits 32 e.set set old new)
          (i.waiting_once e.suspend_thread) (λ v m. refl) in
      let l : Kernel = if r.need_schedule then schedule r.kernel else r.kernel in
      let run : event_send e set k ≡ (r.code, record e { set = r.set }, l) =
        ap (λ b. if b then (error, e, k) else (r.code, record e { set = r.set }, l)) test in
      let walked = subst (λ (x : Err × Event × Kernel). Walked k ts all x.2) run w in
      subst (Result e set k) (sym run) (
        awarded k.thread ts all,
        r.need_schedule,
        r.kernel,
        o,
        refl,
        refl,
        walked.scheduled,
        walked.woken,
        walked.kept,
      )),
)
  where
    Result : Event → ℕ → Kernel → Err × Event × Kernel → Type 0
    Result e set k (code, e', k') =
        (given : ℕ → Option ℕ) × (again : Bool) × (l : Kernel) × Offered k.thread
          (k.suspend_list e.suspend_thread) (bit_or e.set set) false given e'.set code again
        × (e' ≡ record e { set = e'.set })
        × (k' ≡ (if again then schedule l else l))
        × IsScheduled k'
        × ((u bits : ℕ) → given u ≡ some bits → Woken u bits k k')
        × ((u : ℕ) → given u ≡ none → Kept u k k')
