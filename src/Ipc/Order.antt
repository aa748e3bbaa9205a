-- ===== src/Ipc/Order.antt =====
-- The place of a thread in a suspend list by priority, RT_IPC_FLAG_PRIO of
-- os/rt-thread-nano/src/ipc.c.
use lltrisc_v.Prelude.{
  ℕ, ◌≤◌, ◌<◌, ◌≡◌, refl, ap, true, List, [], ◌∷◌, ◌++◌, arith, ltb, mem, Bool-cases, inl, inr,
}
use lltrisc_v.Kernel.State.{Thread}
use lltrisc_v.Ipc.{insert_by_priority}

-- No thread of the list has a better priority than `p`.
abbrev pub NoneBetter : (ℕ → Thread) → ℕ → List ℕ → Type 0
NoneBetter thread p [] = Unit {0}
NoneBetter thread p (s ∷ ss) = (p ≤ (thread s).current_priority) × NoneBetter thread p ss

-- The best priority first.
abbrev pub IsByPriority : (ℕ → Thread) → List ℕ → Type 0
IsByPriority thread [] = Unit {0}
IsByPriority thread (s ∷ ss) =
    NoneBetter thread (thread s).current_priority ss × IsByPriority thread ss

-- Thread `t` between the threads that it waits behind and those that it overtakes.
pub record Placed (thread : ℕ → Thread) (t : ℕ) (ts l : List ℕ) : Type 0 where
  pub before : List ℕ
  pub after : List ℕ
  pub list : l ≡ before ++ t ∷ after
  pub same : ts ≡ before ++ after
  pub not_worse :
      (v : ℕ) → mem v before ≡ true → (thread v).current_priority ≤ (thread t).current_priority
  pub worse :
      (v : ℕ) → mem v after ≡ true → (thread t).current_priority < (thread v).current_priority
  pub sorted : IsByPriority thread l

NoneBetter-weaken :
    (thread : ℕ → Thread) (p q : ℕ) (ss : List ℕ)
    → p ≤ q
    → NoneBetter thread q ss
    → NoneBetter thread p ss
NoneBetter-weaken thread p q [] h n = tt
NoneBetter-weaken thread p q (s ∷ ss) h n = ground (arith, NoneBetter-weaken thread p q ss)

NoneBetter-mem :
    (thread : ℕ → Thread) (p v : ℕ) (ss : List ℕ)
    → NoneBetter thread p ss
    → mem v ss ≡ true
    → p ≤ (thread v).current_priority
NoneBetter-mem thread p v [] n h = cc
NoneBetter-mem thread p v (s ∷ ss) n h = ground (arith, NoneBetter-mem thread p v ss)

NoneBetter-insert :
    (thread : ℕ → Thread) (p t : ℕ) (ss : List ℕ)
    → p ≤ (thread t).current_priority
    → NoneBetter thread p ss
    → NoneBetter thread p (insert_by_priority thread t ss)
unfolding insert_by_priority
NoneBetter-insert thread p t [] h n = (h, tt)
NoneBetter-insert thread p t (s ∷ ss) h n = ground (arith, NoneBetter-insert thread p t ss)

overtaken :
    (thread : ℕ → Thread) (t s : ℕ) (ss : List ℕ)
    → NoneBetter thread (thread s).current_priority ss
    → (thread t).current_priority < (thread s).current_priority
    → (v : ℕ) → mem v (s ∷ ss) ≡ true
    → (thread t).current_priority < (thread v).current_priority
overtaken thread t s ss n h v there =
    ground (arith, NoneBetter-mem thread (thread s).current_priority v ss n)

-- A thread that begins to wait in a list in the order of the priorities is put behind every thread
-- that has its own or a better priority and before every other one; the others keep their order, and
-- the list is in order again.
pub insert_by_priority-Placed :
    (thread : ℕ → Thread) (t : ℕ) (ts : List ℕ)
    → IsByPriority thread ts
    → Placed thread t ts (insert_by_priority thread t ts)
unfolding insert_by_priority
insert_by_priority-Placed thread t [] o = record {
  before = [];
  after = [];
  list = refl;
  same = refl;
  not_worse = λ v h. cc;
  worse = λ v h. cc;
  sorted = (tt, tt);
}
insert_by_priority-Placed thread t (s ∷ ss) o =
    let r = insert_by_priority-Placed thread t ss o.1 in
    elim (Bool-cases (ltb (thread t).current_priority (thread s).current_priority)) [
      | inl better ↦ rw better (record {
        before = [];
        after = s ∷ ss;
        list = refl;
        same = refl;
        not_worse = λ v h. cc;
        worse = overtaken thread t s ss o.0 (ground arith);
        sorted = (
          (
            ground arith,
            NoneBetter-weaken thread (thread t).current_priority (thread s).current_priority ss
                (ground arith) o.0,
          ),
          o,
        );
      })
      | inr behind ↦ rw behind (record {
        before = s ∷ r.before;
        after = r.after;
        list = ap (λ l. s ∷ l) r.list;
        same = ap (λ l. s ∷ l) r.same;
        not_worse = λ v h. ground (arith, r.not_worse v);
        worse = r.worse;
        sorted = (
          NoneBetter-insert thread (thread s).current_priority t ss (ground arith) o.0,
          r.sorted,
        );
      })
    ]
