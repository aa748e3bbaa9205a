-- ===== src/Ipc/Event/Send.antt =====
-- `rt_event_send` and `rt_event_recv` as a whole.
use lltrisc_v.Prelude.{
  ℕ, ◌≡◌, ◌≢◌, refl, ap, sym, ◌∙◌, Bool, true, false, List, [], ◌∷◌, some, none, arith, ◌==◌, mem,
  nodup, Bool-cases, inl, inr, ◌⊎◌, bit_or,
}
use lltrisc_v.Kernel.State.{Kernel, eok, einval, has_stat, thread_suspend}
use lltrisc_v.Scheduler.{schedule}
use lltrisc_v.Scheduler.Invariant.{IsScheduled}
use lltrisc_v.Scheduler.Highest.{schedule-same, schedule-IsScheduled}
use lltrisc_v.Ipc.Event.{
  Event, Match, matched, unmatched, invalid, event_match, take_bits, deliver, Sent, send_walk,
  event_send,
}
use lltrisc_v.Ipc.Event.Delivery.{
  awarded, award_next, awarded-absent, deliver-Delivered, Walked, unmoved, matched-Walked,
}

module _ (t : ℕ) (ts : List ℕ) (set : ℕ) (k : Kernel) (i : IsScheduled k) where
  invalid-Walked :
      event_match (k.thread t).event_info (k.thread t).event_set set ≡ invalid
      → Walked k (t ∷ ts) set k
  unfolding awarded award_next
  invalid-Walked found = unmoved k (t ∷ ts) set i (λ u. rw found refl)

  unmatched-Walked :
      (k' : Kernel)
      → event_match (k.thread t).event_info (k.thread t).event_set set ≡ unmatched
      → mem t ts ≡ false
      → Walked k ts set k'
      → Walked k (t ∷ ts) set k'
  unfolding awarded award_next
  unmatched-Walked k' found out w = record {
    scheduled = w.scheduled;
    woken = λ u bits e. w.woken u bits (later u bits e (Bool-cases (t == u)));
    kept = λ u e. w.kept u (none_later u e (Bool-cases (t == u)));
  }
    where
      skipped : (u : ℕ) → (t == u) ≡ true → awarded k.thread (t ∷ ts) set u ≡ none
      skipped u h = rw (found, h) refl

      passed :
          (u : ℕ) → (t == u) ≡ false → awarded k.thread (t ∷ ts) set u ≡ awarded k.thread ts set u
      passed u h = rw (found, h) refl

      later :
          (u bits : ℕ)
          → awarded k.thread (t ∷ ts) set u ≡ some bits
          → ((t == u) ≡ true) ⊎ ((t == u) ≡ false)
          → awarded k.thread ts set u ≡ some bits
      later u bits e (inl h) = cc (sym e ∙ skipped u h)
      later u bits e (inr h) = sym (passed u h) ∙ e

      none_later :
          (u : ℕ)
          → awarded k.thread (t ∷ ts) set u ≡ none
          → ((t == u) ≡ true) ⊎ ((t == u) ≡ false)
          → awarded k.thread ts set u ≡ none
      none_later u e (inl h) = awarded-absent k.thread ts set u (ground (arith, h, out))
      none_later u e (inr h) = sym (passed u h) ∙ e

-- The rest of the walk after the first thread.
unfoldable pub rest : Match → (info : ℕ) → ℕ → List ℕ → ℕ → Bool → Kernel → Sent
rest invalid info t ts set need k = record {
  code = einval;
  set = set;
  need_schedule = false;
  kernel = k;
}
rest unmatched info t ts set need k = send_walk ts set need k
rest (matched bits) info t ts set need k =
    send_walk ts (take_bits info bits set) true (deliver t bits k)

pub send_walk-rest :
    (t : ℕ) (ts : List ℕ) (set : ℕ) (need : Bool) (k : Kernel) (m : Match)
    → event_match (k.thread t).event_info (k.thread t).event_set set ≡ m
    → send_walk (t ∷ ts) set need k ≡ rest m (k.thread t).event_info t ts set need k
unfolding send_walk rest
send_walk-rest t ts set need k invalid e = ground (arith, e)
send_walk-rest t ts set need k unmatched e = ground (arith, e)
send_walk-rest t ts set need k (matched bits) e = ground (arith, e)

pub Match-cases :
    (m : Match) → (m ≡ invalid) ⊎ ((m ≡ unmatched) ⊎ ((bits : ℕ) × (m ≡ matched bits)))
Match-cases invalid = inl refl
Match-cases unmatched = inr (inl refl)
Match-cases (matched bits) = inr (inr (bits, refl))

pub send_walk-nil :
    (set : ℕ) (need : Bool) (k : Kernel)
    → send_walk [] set need k ≡ record { code = eok; set = set; need_schedule = need; kernel = k }
unfolding send_walk
send_walk-nil set need k = refl

nobody : (k : Kernel) (set u : ℕ) → awarded k.thread [] set u ≡ none
unfolding awarded
nobody k set u = refl

-- The walk from a list of different threads that are suspended.
send_walk-Walked :
    (ts : List ℕ) (set : ℕ) (need : Bool) (k : Kernel)
    → IsScheduled k
    → nodup ts ≡ true
    → ((v : ℕ) → mem v ts ≡ true → has_stat thread_suspend (k.thread v) ≡ true)
    → Walked k ts set (send_walk ts set need k).kernel
unfolding rest
send_walk-Walked [] set need k i once asleep =
    rw (send_walk-nil set need k) (unmoved k [] set i (nobody k set))
send_walk-Walked (t ∷ ts) set need k i once asleep =
    let b = k.thread t in
    let out : mem t ts ≡ false = ground (arith, once) in
    elim (Match-cases (event_match b.event_info b.event_set set)) [
      | inl e ↦ rw (send_walk-rest t ts set need k invalid e) (invalid-Walked t ts set k i e)
      | inr (inl e) ↦ rw (send_walk-rest t ts set need k unmatched e) (
          unmatched-Walked t ts set k i _ e out (
            send_walk-Walked ts set need k i (ground (arith, once))
              (λ v h. asleep v (ground (arith, h)))))
      | inr (inr (bits, e)) ↦
          let d = deliver-Delivered t bits k i (asleep t (ground arith)) in
          let left = take_bits b.event_info bits set in
          let w =
            send_walk-Walked ts left true (deliver t bits k) d.scheduled (ground (arith, once))
              (λ v h. ground (arith, asleep v, d.others v, h, out)) in
          rw (send_walk-rest t ts set need k (matched bits) e) (
            matched-Walked t ts set bits k (send_walk ts left true (deliver t bits k)).kernel e out
              d w)
    ]

schedule-Walked :
    (k : Kernel) (ts : List ℕ) (set : ℕ) (l : Kernel)
    → Walked k ts set l
    → Walked k ts set (schedule l)
schedule-Walked k ts set l w =
    let q = schedule-same l in
    record {
      scheduled = schedule-IsScheduled l w.scheduled;
      woken = λ u bits e.
          let v = w.woken u bits e in
          record {
            ready = ground (arith, q.thread, v.ready);
            bits_set = ground (arith, q.thread, v.bits_set);
            error = ground (arith, q.thread, v.error);
            gone = λ o. ap (λ f. mem u (f o)) q.suspend_list ∙ v.gone o;
          };
      kept = λ u e.
          let v = w.kept u e in
          record {
            thread = ap (λ f. f u) q.thread ∙ v.thread;
            lists = λ o. ap (λ f. mem u (f o)) q.suspend_list ∙ v.lists o;
          };
    }

-- `rt_event_send` of a set that is not empty, in a consistent state: the new set is offered to the
-- waiting threads in their order, each of which takes the bits it asked for with RT_EVENT_FLAG_CLEAR
-- out of it. A thread whose bits have come is ready, in no suspend list, with those bits noted and its
-- error as it was; any other thread is as it was, in the same suspend lists. The state stays
-- consistent.
pub event_send-Walked :
    (e : Event) (set : ℕ) (k : Kernel)
    → IsScheduled k
    → set ≢ 0
    → Walked k (k.suspend_list e.suspend_thread) (bit_or e.set set) (event_send e set k).2
unfolding event_send
event_send-Walked e set k i some_bits =
    let ts = k.suspend_list e.suspend_thread in
    let r = send_walk ts (bit_or e.set set) false k in
    let w =
      send_walk-Walked ts (bit_or e.set set) false k i (i.waiting_once e.suspend_thread)
        (λ v h. i.waiting v e.suspend_thread h) in
    let n : (set == 0) ≡ false = ground arith in
    rw n (elim (Bool-cases r.need_schedule) [
      | inl s ↦ rw s (schedule-Walked k ts (bit_or e.set set) r.kernel w)
      | inr s ↦ rw s w
    ])
