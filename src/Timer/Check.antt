-- ===== src/Timer/Check.antt =====
-- `rt_timer_check` calls every timer that has run out, in the order of the row, and stops at the
-- first that has not.
use lltrisc_v.Prelude.{
  ℕ, zero, suc, ◌^◌, ◌<◌, ◌≡◌, refl, ◌∙◌, Bool, true, false, List, [], ◌∷◌, arith, if◌then◌else◌,
  ltb, ap, sym, update, remove, mem, nodup, length, remove_absent, none, some, Bool-cases, inl, inr,
}
use lltrisc_v.Kernel.State.{Kernel, Timer, Timeout}
use lltrisc_v.Timer.{
  tick_sub, half_range, fire, expire, restart, insert_sorted, next_due, check_loop, timer_check,
}

-- Is the timer due at the tick? The test of the loop.
abbrev pub is_due : ℕ → Timer → Bool
is_due now b = ltb (tick_sub now b.timeout_tick) half_range

-- The row without the due timers at its front.
abbrev pub drop_due : (ℕ → Timer) → ℕ → List ℕ → List ℕ
drop_due timer now [] = []
drop_due timer now (t ∷ ts) = if is_due now (timer t) then drop_due timer now ts else t ∷ ts

-- The due timers at the front of the row.
abbrev pub take_due : (ℕ → Timer) → ℕ → List ℕ → List ℕ
take_due timer now [] = []
take_due timer now (t ∷ ts) = if is_due now (timer t) then t ∷ take_due timer now ts else []

-- One one-shot timer's call: the timer is out of the row and inactive while its function runs.
abbrev pub called_one : (Timeout → Kernel → Kernel) → ℕ → Kernel → Kernel
called_one call m k =
    let b = k.timer m in
    let k1 = record k {
      timer = update k.timer m (record b { activated = false });
      timer_list = remove m k.timer_list;
      fired_list = m ∷ [];
    } in
    record (call b.timeout_func k1) { fired_list = [] }

-- The timers' functions, called one after the other.
abbrev pub called : (Timeout → Kernel → Kernel) → List ℕ → Kernel → Kernel
called call [] k = k
called call (m ∷ ms) k = called call ms (called_one call m k)

abbrev pub AllOneShot : (ℕ → Timer) → List ℕ → Type 0
AllOneShot timer [] = Unit {0}
AllOneShot timer (t ∷ ts) = ((timer t).periodic ≡ false) × AllOneShot timer ts

-- Timeout functions that leave the timers, their row and the tick as they are, whatever else they do.
pub record LeavesTimers (call : Timeout → Kernel → Kernel) : Type 0 where
  pub timer : (f : Timeout) (k : Kernel) → (call f k).timer ≡ k.timer
  pub timer_list : (f : Timeout) (k : Kernel) → (call f k).timer_list ≡ k.timer_list
  pub fired_list : (f : Timeout) (k : Kernel) → (call f k).fired_list ≡ k.fired_list
  pub tick : (f : Timeout) (k : Kernel) → (call f k).tick ≡ k.tick

module _ (timer : ℕ → Timer) (m : ℕ) (b : Timer) where
  drop_due-update :
      (now : ℕ) (ts : List ℕ)
      → mem m ts ≡ false
      → drop_due (update timer m b) now ts ≡ drop_due timer now ts
  drop_due-update now [] out = refl
  drop_due-update now (t ∷ ts) out = ground (arith, drop_due-update now ts)

  take_due-update :
      (now : ℕ) (ts : List ℕ)
      → mem m ts ≡ false
      → take_due (update timer m b) now ts ≡ take_due timer now ts
  take_due-update now [] out = refl
  take_due-update now (t ∷ ts) out = ground (arith, take_due-update now ts)

  AllOneShot-update :
      (ts : List ℕ) → mem m ts ≡ false → AllOneShot timer ts → AllOneShot (update timer m b) ts
  AllOneShot-update [] out all = tt
  AllOneShot-update (t ∷ ts) out all = ground (arith, AllOneShot-update ts)

module _ (call : Timeout → Kernel → Kernel) (n : LeavesTimers call) where
  -- What one one-shot timer at the head of the row leaves behind.
  pub record Fired (m : ℕ) (ts : List ℕ) (k k' : Kernel) : Type 0 where
    pub timer : k'.timer ≡ update k.timer m (record (k.timer m) { activated = false })
    pub timer_list : k'.timer_list ≡ ts
    pub fired_list : k'.fired_list ≡ []
    pub one : k' ≡ called_one call m k
    pub tick : k'.tick ≡ k.tick

  restart_fired :
      (m : ℕ) (ts : List ℕ) (k : Kernel)
      → k.timer_list ≡ ts
      → k.fired_list ≡ m ∷ []
      → mem m ts ≡ false
      → (k.timer m).periodic ≡ false
      → restart m k ≡ record k { timer_list = ts; fired_list = [] }
  unfolding restart
  restart_fired m ts k row fired out one_shot = ground (arith, remove_absent m ts out)

  expired_row :
      (m : ℕ) (ts : List ℕ) (k : Kernel) → k.timer_list ≡ m ∷ ts → (expire m k).timer_list ≡ ts
  unfolding expire
  expired_row m ts k row = ground (arith, row)

  expired_kind : (m : ℕ) (k : Kernel) → ((expire m k).timer m).periodic ≡ (k.timer m).periodic
  unfolding expire
  expired_kind m k = ground arith

  expired_fired : (m : ℕ) (k : Kernel) → k.fired_list ≡ [] → (expire m k).fired_list ≡ m ∷ []
  unfolding expire
  expired_fired m k none_fired = ground (arith, none_fired)

  expired :
      (m : ℕ) (k : Kernel)
      → k.fired_list ≡ []
      → (k.timer m).periodic ≡ false
      → expire m k ≡ record k {
        timer = update k.timer m (record (k.timer m) { activated = false });
        timer_list = remove m k.timer_list;
        fired_list = m ∷ [];
      }
  unfolding expire
  expired m k none_fired one_shot = ground (arith, none_fired, one_shot)

  fire-one :
      (m : ℕ) (ts : List ℕ) (k : Kernel)
      → k.timer_list ≡ m ∷ ts
      → k.fired_list ≡ []
      → mem m ts ≡ false
      → (k.timer m).periodic ≡ false
      → fire call m k ≡ called_one call m k
  unfolding fire
  fire-one m ts k row none_fired out one_shot =
      let f = (k.timer m).timeout_func in
      let e = expire m k in
      let c = call f e in
      let rest : c.timer_list ≡ ts = n.timer_list f e ∙ expired_row m ts k row in
      let off : (c.timer m).periodic ≡ false =
        ap (λ (t : ℕ → Timer). (t m).periodic) (n.timer f e) ∙ expired_kind m k ∙ one_shot in
      let alone : c.fired_list ≡ m ∷ [] = n.fired_list f e ∙ expired_fired m k none_fired in
      restart_fired m ts c rest alone out off
      ∙ (λ i. record c { timer_list = sym rest i; fired_list = [] })
      ∙ ap (λ x. record (call f x) { fired_list = [] }) (expired m k none_fired one_shot)

  fire-Fired :
      (m : ℕ) (ts : List ℕ) (k : Kernel)
      → k.timer_list ≡ m ∷ ts
      → k.fired_list ≡ []
      → mem m ts ≡ false
      → (k.timer m).periodic ≡ false
      → Fired m ts k (fire call m k)
  unfolding fire expire
  fire-Fired m ts k row none_fired out one_shot = ground (
    arith,
    restart_fired m ts (call (k.timer m).timeout_func (expire m k)),
    fire-one m ts k row none_fired out one_shot,
    n.timer (k.timer m).timeout_func (expire m k),
    n.timer_list (k.timer m).timeout_func (expire m k),
    n.fired_list (k.timer m).timeout_func (expire m k),
    n.tick (k.timer m).timeout_func (expire m k),
  )

  AllOneShot-Fired :
      (m : ℕ) (ts : List ℕ) (k k' : Kernel)
      → Fired m ts k k'
      → mem m ts ≡ false
      → AllOneShot k.timer ts
      → AllOneShot k'.timer ts
  AllOneShot-Fired m ts k k' g out all =
      rw g.timer (AllOneShot-update k.timer m (record (k.timer m) { activated = false }) ts out all)

  -- The row `ts` of `k` after a check that ended in `k'`.
  pub record Checked (ts : List ℕ) (k k' : Kernel) : Type 0 where
    pub timer_list : k'.timer_list ≡ drop_due k.timer k.tick ts
    pub ran : k' ≡ called call (take_due k.timer k.tick ts) k
    pub tick : k'.tick ≡ k.tick

  Checked-Fired :
      (m : ℕ) (ts : List ℕ) (k k1 k' : Kernel)
      → Fired m ts k k1
      → mem m ts ≡ false
      → is_due k.tick (k.timer m) ≡ true
      → Checked ts k1 k'
      → Checked (m ∷ ts) k k'
  Checked-Fired m ts k k1 k' g out due c =
      let off : Timer = record (k.timer m) { activated = false } in
      record {
        timer_list = rw due (
            c.timer_list
            ∙ (rw (g.timer, g.tick)
                (drop_due-update k.timer m (record (k.timer m) { activated = false }) k.tick ts
                  out)));
        ran = rw due (
            c.ran
            ∙ ap (λ f. called call (take_due f k1.tick ts) k1) g.timer
            ∙ ap (λ now. called call (take_due (update k.timer m off) now ts) k1) g.tick
            ∙ ap (λ ms. called call ms k1) (take_due-update k.timer m off k.tick ts out)
            ∙ ap (called call (take_due k.timer k.tick ts)) g.one);
        tick = c.tick ∙ g.tick;
      }

  check_loop-due :
      (fuel : ℕ) (ts : List ℕ) (k : Kernel)
      → k.timer_list ≡ ts
      → k.fired_list ≡ []
      → nodup ts ≡ true
      → AllOneShot k.timer ts
      → length ts < fuel
      → (k' : Kernel) × (check_loop call fuel k.tick k ≡ some k') × Checked ts k k'
  unfolding check_loop next_due
  check_loop-due zero ts k row nf once all h = absurd (omega arith)
  check_loop-due (suc fuel) [] k row nf once all h =
      (k, ground arith, record { timer_list = row; ran = refl; tick = refl })
  check_loop-due (suc fuel) (m ∷ ts) k row nf once all h =
      elim (Bool-cases (is_due k.tick (k.timer m))) [
        | inl due ↦
            let out : mem m ts ≡ false = ground arith in
            let g = fire-Fired m ts k row nf out all.0 in
            let (k', runs, c) =
              check_loop-due fuel ts (fire call m k) g.timer_list g.fired_list (ground arith)
                (AllOneShot-Fired m ts k (fire call m k) g out all.1) (omega arith) in
            (
              k',
              ground (arith, row, due, runs),
              Checked-Fired m ts k (fire call m k) k' g out due c,
            )
        | inr waits ↦ (k, ground (arith, row, waits), ground (arith, row, waits))
      ]

  -- With one-shot timers, each in the row once, with functions that leave the timers, their row and the
  -- tick alone, whatever else they do, and fuel beyond the row's length, `rt_timer_check` returns: it has
  -- called the functions of the timers that were due at the front of the row, each once and in the row's
  -- order, with the timer inactive and out of the row meanwhile, done nothing else, and leaves the rest
  -- of the row.
  pub timer_check-due :
      (fuel : ℕ) (k : Kernel)
      → nodup k.timer_list ≡ true
      → AllOneShot k.timer k.timer_list
      → length k.timer_list < fuel
      → (k' : Kernel) × (timer_check call fuel k ≡ some k')
        × Checked k.timer_list (record k { fired_list = [] }) k'
  unfolding timer_check
  timer_check-due fuel k once all h =
      let (k', runs, c) =
        check_loop-due fuel k.timer_list (record k { fired_list = [] }) refl refl once all h in
      (k', runs, record { timer_list = c.timer_list; ran = c.ran; tick = c.tick })

  -- A periodic timer of no ticks, alone in the row.
  pub record IsSpinning (m : ℕ) (k : Kernel) : Type 0 where
    pub row : k.timer_list ≡ m ∷ []
    pub fired : k.fired_list ≡ []
    pub periodic : (k.timer m).periodic ≡ true
    pub activated : (k.timer m).activated ≡ true
    pub instant : (k.timer m).init_tick ≡ 0
    pub due : is_due k.tick (k.timer m) ≡ true
    pub fits : k.tick < 2 ^ 32

  restart-IsSpinning :
      (m : ℕ) (k : Kernel)
      → k.timer_list ≡ []
      → k.fired_list ≡ m ∷ []
      → (k.timer m).periodic ≡ true
      → (k.timer m).activated ≡ true
      → (k.timer m).init_tick ≡ 0
      → k.tick < 2 ^ 32
      → IsSpinning m (restart m k)
  unfolding restart insert_sorted
  restart-IsSpinning m k row fired periodic activated instant fits = ground arith

  fire-IsSpinning : (m : ℕ) (k : Kernel) → IsSpinning m k → IsSpinning m (fire call m k)
  unfolding fire expire
  fire-IsSpinning m k s =
      let e = expire m k in
      let f = (k.timer m).timeout_func in
      restart-IsSpinning m (call f e) (n.timer_list f e ∙ ground (arith, s.row))
        (n.fired_list f e ∙ ground (arith, s.fired)) (ground (arith, n.timer f e, s.periodic))
        (ground (arith, n.timer f e, s.activated, s.periodic))
        (ground (arith, n.timer f e, s.instant)) (ground (arith, n.tick f e, s.fits))

  -- A periodic timer of no ticks, active, due and alone in the row, whose function leaves the
  -- timers, their row and the tick alone, whatever else it does, keeps `rt_timer_check` in its loop: no fuel is enough.
  pub check_loop-spins :
      (fuel m : ℕ) (k : Kernel) → IsSpinning m k → check_loop call fuel k.tick k ≡ none
  unfolding check_loop next_due
  check_loop-spins zero m k s = refl
  check_loop-spins (suc fuel) m k s =
      ground (arith, s.row, s.due, check_loop-spins fuel m (fire call m k) (fire-IsSpinning m k s))
