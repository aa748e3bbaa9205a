-- ===== src/Kernel/Errno.antt =====
-- The error number, os/rt-thread-nano/src/kservice.c: a variable of the system's, and one in each thread.
use lltrisc_v.Prelude.{
  ℕ, Option, none, some, not, ◌==◌, if◌then◌else◌, ◌≡◌, refl, arith, ◌≢◌, ◌∙◌, sym, ◌⊎◌, inl, inr,
}
use lltrisc_v.Kernel.State.{Kernel, Err}
use lltrisc_v.Kernel.Lists.{set_error}

-- `rt_get_errno`, with `__rt_errno` first
unfoldable pub rt_get_errno : Err → Kernel → Err
rt_get_errno errno k =
    if not (k.interrupt_nest == 0)
    then errno
    else elim (k.current_thread) [ none ↦ errno | some t ↦ (k.thread t).error ]

-- `rt_set_errno`
unfoldable pub rt_set_errno : (value errno : Err) → Kernel → Err × Kernel
rt_set_errno value errno k =
    if not (k.interrupt_nest == 0)
    then (value, k)
    else elim (k.current_thread) [ none ↦ (value, k) | some t ↦ (errno, set_error t value k) ]

-- `_rt_errno`: the thread whose `error` it points to, or none for `__rt_errno`
unfoldable pub rt_errno_place : Kernel → Option ℕ
rt_errno_place k = if not (k.interrupt_nest == 0) then none else k.current_thread

-- What an error place holds.
abbrev pub error_at : Option ℕ → Err → Kernel → Err
error_at none errno k = errno
error_at (some t) errno k = (k.thread t).error

module _ (value errno : Err) (k : Kernel) where
  set_global : rt_errno_place k ≡ none → rt_set_errno value errno k ≡ (value, k)
  unfolding rt_set_errno rt_errno_place
  set_global e = ground (arith, e)

  set_own :
      (t : ℕ)
      → rt_errno_place k ≡ some t
      → rt_set_errno value errno k ≡ (errno, set_error t value k)
  unfolding rt_set_errno rt_errno_place
  set_own t e = ground (arith, e)

  get_global : rt_errno_place k ≡ none → rt_get_errno errno k ≡ errno
  unfolding rt_get_errno rt_errno_place
  get_global e = ground (arith, e)

  get_own : (t : ℕ) → rt_errno_place k ≡ some t → rt_get_errno errno k ≡ (k.thread t).error
  unfolding rt_get_errno rt_errno_place
  get_own t e = ground (arith, e)

same_place : (t : ℕ) (e : Err) (k : Kernel) → rt_errno_place (set_error t e k) ≡ rt_errno_place k
unfolding rt_errno_place
same_place t e k = refl

Option-cases {ℓ} : {A : Type ℓ} (o : Option A) → (o ≡ none) ⊎ ((a : A) × (o ≡ some a))
Option-cases none = inl refl
Option-cases (some a) = inr (a, refl)

-- The error that rt_set_errno sets is the one that rt_get_errno returns next, from a thread and from an
-- interrupt; it is set at the place that _rt_errno points to, which stays the same, and every other error
-- stays as it was.
pub rt_get_errno-rt_set_errno :
    (value errno : Err) (k : Kernel)
    → let (errno', k') = rt_set_errno value errno k in
      (rt_get_errno errno' k' ≡ value)
      × (rt_errno_place k' ≡ rt_errno_place k)
      × ((p : Option ℕ) → p ≢ rt_errno_place k → error_at p errno' k' ≡ error_at p errno k)
rt_get_errno-rt_set_errno value errno k = elim (Option-cases (rt_errno_place k)) [
  | inl e ↦
      rw (set_global value errno k e)
        (get_global value value k e, refl, λ p off. at_thread p (λ z. off (z ∙ sym e)))
  | inr (t, e) ↦ rw (set_own value errno k t e) (
    get_own value errno (set_error t value k) t (same_place t value k ∙ e) ∙ at_own t,
    same_place t value k,
    λ p off. elsewhere t p (λ z. off (z ∙ sym e)),
  )
]
  where
    at_thread : (p : Option ℕ) → p ≢ none → error_at p value k ≡ error_at p errno k
    at_thread none off = absurd (off refl)
    at_thread (some t) off = refl

    at_own : (t : ℕ) → ((set_error t value k).thread t).error ≡ value
    at_own t = ground arith

    elsewhere :
        (t : ℕ) (p : Option ℕ)
        → p ≢ some t
        → error_at p errno (set_error t value k) ≡ error_at p errno k
    elsewhere t none off = refl
    elsewhere t (some u) off = ground (arith, off)
