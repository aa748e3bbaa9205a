-- ===== src/Ipc/Event/Delivery.antt =====
-- Which threads `rt_event_send` wakes, and what they get.
use lltrisc_v.Prelude.{
  ℕ, ◌≡◌, ◌≢◌, refl, ap, sym, ◌∙◌, fun_ext, true, false, List, [], ◌∷◌, Option, some, none, arith,
  ◌==◌, if◌then◌else◌, mem, mem-remove_ne, mem-remove_self, Bool-cases, inl, inr, ==_refl, ==→eq,
}
use lltrisc_v.Kernel.State.{Kernel, Thread, has_stat, thread_ready, thread_suspend}
use lltrisc_v.Kernel.Lists.{set_thread}
use lltrisc_v.Scheduler.{insert_thread}
use lltrisc_v.Scheduler.Invariant.{IsScheduled}
use lltrisc_v.Timer.{timer_stop, timer_unlink}
use lltrisc_v.Thread.{thread_resume}
use lltrisc_v.Thread.Invariant.{thread_resume-IsScheduled}
use lltrisc_v.Ipc.Event.{Match, matched, unmatched, invalid, event_match, take_bits, deliver}

-- What the first of the threads finds, and the turn of the others after it.
unfoldable pub award_next : Match → (info t set u : ℕ) → (ℕ → Option ℕ) → Option ℕ
award_next invalid info t set u later = none
award_next unmatched info t set u later = if t == u then none else later set
award_next (matched bits) info t set u later =
    if t == u then some bits else later (take_bits info bits set)

-- The bits that thread `u` gets when the set is offered to the threads in turn, if it gets any.
unfoldable pub awarded : (ℕ → Thread) → List ℕ → ℕ → ℕ → Option ℕ
awarded thread [] set u = none
awarded thread (t ∷ ts) set u =
    award_next (event_match (thread t).event_info (thread t).event_set set) (thread t).event_info t
      set u (λ bits_left. awarded thread ts bits_left u)

award-none :
    (m : Match) (info t set u : ℕ) (later : ℕ → Option ℕ)
    → (t == u) ≡ false
    → ((bits_left : ℕ) → later bits_left ≡ none)
    → award_next m info t set u later ≡ none
unfolding award_next
award-none invalid info t set u later h none_later = refl
award-none unmatched info t set u later h none_later = rw h (none_later set)
award-none (matched bits) info t set u later h none_later =
    rw h (none_later (take_bits info bits set))

pub awarded-absent :
    (thread : ℕ → Thread) (ts : List ℕ) (set u : ℕ)
    → mem u ts ≡ false
    → awarded thread ts set u ≡ none
unfolding awarded
awarded-absent thread [] set u h = refl
awarded-absent thread (t ∷ ts) set u h =
    award-none (event_match (thread t).event_info (thread t).event_set set) (thread t).event_info t
      set u (λ bits_left. awarded thread ts bits_left u) (ground (arith, h))
      (λ bits_left. awarded-absent thread ts bits_left u (ground (arith, h)))

-- Only the control blocks of the threads in the list count.
awarded-same :
    (f g : ℕ → Thread) (ts : List ℕ) (set u : ℕ)
    → ((v : ℕ) → mem v ts ≡ true → f v ≡ g v)
    → awarded f ts set u ≡ awarded g ts set u
unfolding awarded
awarded-same f g [] set u same = refl
awarded-same f g (t ∷ ts) set u same =
    let head = same t (ground arith) in
    let tail =
      λ (bits_left : ℕ). awarded-same f g ts bits_left u (λ v h. same v (ground (arith, h))) in
    ap
      (λ (b : Thread).
        award_next (event_match b.event_info b.event_set set) b.event_info t set u
          (λ bits_left. awarded f ts bits_left u))
      head
    ∙ ap (award_next (event_match (g t).event_info (g t).event_set set) (g t).event_info t set u)
        (fun_ext tail)

-- Resuming one thread with its bits.
pub record Delivered (t bits : ℕ) (k k' : Kernel) : Type 0 where
  pub scheduled : IsScheduled k'
  pub ready : has_stat thread_ready (k'.thread t) ≡ true
  pub bits_set : (k'.thread t).event_set ≡ bits
  pub error : (k'.thread t).error ≡ (k.thread t).error
  pub gone : (o : ℕ) → mem t (k'.suspend_list o) ≡ false
  pub others : (u : ℕ) → u ≢ t → k'.thread u ≡ k.thread u
  pub lists : (u o : ℕ) → u ≢ t → mem u (k'.suspend_list o) ≡ mem u (k.suspend_list o)

marked-IsScheduled :
    (t bits : ℕ) (k : Kernel)
    → IsScheduled k
    → IsScheduled (set_thread t (record (k.thread t) { event_set = bits }) k)
marked-IsScheduled t bits k i = record {
  fits = i.fits;
  group = i.group;
  queued = λ u p. ground (arith, i.queued u p);
  once = i.once;
  masks = λ u h. ground (arith, i.masks u);
  waiting = λ u o h. ground (arith, i.waiting u o);
  waiting_once = i.waiting_once;
}

pub deliver-Delivered :
    (t bits : ℕ) (k : Kernel)
    → IsScheduled k
    → has_stat thread_suspend (k.thread t) ≡ true
    → Delivered t bits k (deliver t bits k)
unfolding deliver thread_resume timer_stop timer_unlink insert_thread
deliver-Delivered t bits k i asleep = record {
  scheduled = thread_resume-IsScheduled _ t (marked-IsScheduled t bits k i);
  ready = ground (arith, asleep);
  bits_set = ground (arith, asleep);
  error = ground (arith, asleep);
  gone = λ o. ground (arith, asleep, mem-remove_self t (k.suspend_list o) (i.waiting_once o));
  others = λ u h. ground (arith, asleep);
  lists = λ u o h. ground (arith, asleep, mem-remove_ne u t (k.suspend_list o));
}

-- A thread that was woken with its bits.
pub record Woken (u bits : ℕ) (k k' : Kernel) : Type 0 where
  pub ready : has_stat thread_ready (k'.thread u) ≡ true
  pub bits_set : (k'.thread u).event_set ≡ bits
  pub error : (k'.thread u).error ≡ (k.thread u).error
  pub gone : (o : ℕ) → mem u (k'.suspend_list o) ≡ false

-- A thread that was left alone.
pub record Kept (u : ℕ) (k k' : Kernel) : Type 0 where
  pub thread : k'.thread u ≡ k.thread u
  pub lists : (o : ℕ) → mem u (k'.suspend_list o) ≡ mem u (k.suspend_list o)

-- The walk, seen from every thread.
pub record Walked (k : Kernel) (ts : List ℕ) (set : ℕ) (k' : Kernel) : Type 0 where
  pub scheduled : IsScheduled k'
  pub woken : (u bits : ℕ) → awarded k.thread ts set u ≡ some bits → Woken u bits k k'
  pub kept : (u : ℕ) → awarded k.thread ts set u ≡ none → Kept u k k'

pub unmoved :
    (k : Kernel) (ts : List ℕ) (set : ℕ)
    → IsScheduled k
    → ((u : ℕ) → awarded k.thread ts set u ≡ none)
    → Walked k ts set k
unmoved k ts set i nobody = record {
  scheduled = i;
  woken = λ u bits e. cc (nobody u);
  kept = λ u e. record { thread = refl; lists = λ o. refl };
}

module _ (t : ℕ) (ts : List ℕ) (set bits : ℕ) (k k' : Kernel)
    (found : event_match (k.thread t).event_info (k.thread t).event_set set ≡ matched bits)
    (out : mem t ts ≡ false) (d : Delivered t bits k (deliver t bits k))
    (w : Walked (deliver t bits k) ts (take_bits (k.thread t).event_info bits set) k') where
  abbrev bits_left : ℕ
  bits_left = take_bits (k.thread t).event_info bits set

  tail-same :
      (u : ℕ) → awarded (deliver t bits k).thread ts bits_left u ≡ awarded k.thread ts bits_left u
  tail-same u =
      awarded-same (deliver t bits k).thread k.thread ts bits_left u
        (λ v h. d.others v (ground (arith, h, out)))

  awarded-here : awarded k.thread (t ∷ ts) set t ≡ some bits
  unfolding awarded award_next
  awarded-here = rw (found, ==_refl t) refl

  other : (u : ℕ) → u ≢ t → (t == u) ≡ false
  other u h = ground arith

  awarded-later :
      (u : ℕ) → u ≢ t → awarded k.thread (t ∷ ts) set u ≡ awarded k.thread ts bits_left u
  unfolding awarded award_next
  awarded-later u h = rw (found, other u h) refl

  first-Woken : Woken t bits k k'
  first-Woken =
      let same = w.kept t (awarded-absent (deliver t bits k).thread ts bits_left t out) in
      record {
        ready = ground (arith, same.thread, d.ready);
        bits_set = ground (arith, same.thread, d.bits_set);
        error = ground (arith, same.thread, d.error);
        gone = λ o. same.lists o ∙ d.gone o;
      }

  later-Woken : (u b : ℕ) → u ≢ t → awarded k.thread (t ∷ ts) set u ≡ some b → Woken u b k k'
  later-Woken u b h e =
      let later = w.woken u b (tail-same u ∙ sym (awarded-later u h) ∙ e) in
      record {
        ready = later.ready;
        bits_set = later.bits_set;
        error = later.error ∙ ap (λ (x : Thread). x.error) (d.others u h);
        gone = later.gone;
      }

  later-Kept : (u : ℕ) → u ≢ t → awarded k.thread (t ∷ ts) set u ≡ none → Kept u k k'
  later-Kept u h e =
      let later = w.kept u (tail-same u ∙ sym (awarded-later u h) ∙ e) in
      record { thread = later.thread ∙ d.others u h; lists = λ o. later.lists o ∙ d.lists u o h }

  all-Woken : (u b : ℕ) → awarded k.thread (t ∷ ts) set u ≡ some b → Woken u b k k'
  all-Woken u b e = elim (Bool-cases (u == t)) [
    | inl here ↦
        let q : u ≡ t = ==→eq u t here in
        let same : some bits ≡ some b =
          sym awarded-here ∙ ap (λ v. awarded k.thread (t ∷ ts) set v) (sym q) ∙ e in
        let f = first-Woken in
        record {
          ready = ground (arith, q, f.ready);
          bits_set = ground (arith, q, f.bits_set, same);
          error = ground (arith, q, f.error);
          gone = λ o. ap (λ v. mem v (k'.suspend_list o)) q ∙ f.gone o;
        }
    | inr there ↦ later-Woken u b (λ q. ground (arith, there, q)) e
  ]

  all-Kept : (u : ℕ) → awarded k.thread (t ∷ ts) set u ≡ none → Kept u k k'
  all-Kept u e = elim (Bool-cases (u == t)) [
    | inl here ↦
        let q : u ≡ t = ==→eq u t here in
        let clash : some bits ≡ none =
          sym awarded-here ∙ ap (λ v. awarded k.thread (t ∷ ts) set v) (sym q) ∙ e in
        cc clash
    | inr there ↦ later-Kept u (λ q. ground (arith, there, q)) e
  ]

  pub matched-Walked : Walked k (t ∷ ts) set k'
  matched-Walked = record { scheduled = w.scheduled; woken = all-Woken; kept = all-Kept }
