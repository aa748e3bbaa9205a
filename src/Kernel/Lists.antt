-- ===== src/Kernel/Lists.antt =====
-- Steps on single parts of the kernel's state.
use lltrisc_v.Prelude.{ℕ, update, remove, true}
use lltrisc_v.Kernel.State.{Kernel, Thread, Timer, Err}

-- A write to one control block.
abbrev pub set_thread : ℕ → Thread → Kernel → Kernel
set_thread t b k = record k { thread = update k.thread t b }

abbrev pub set_timer : ℕ → Timer → Kernel → Kernel
set_timer t b k = record k { timer = update k.timer t b }

-- `thread->error = e`
abbrev pub set_error : ℕ → Err → Kernel → Kernel
set_error t e k = set_thread t (record (k.thread t) { error = e }) k

-- `rt_list_remove(&thread->tlist)`: the node leaves the list that it is in.
abbrev pub unlink : ℕ → Kernel → Kernel
unlink t k = record k {
  priority_table = λ p. remove t (k.priority_table p);
  suspend_list = λ o. remove t (k.suspend_list o);
}

-- A program error that C leaves undefined; it stays recorded.
abbrev pub fail : Kernel → Kernel
fail k = record k { fault = true }
