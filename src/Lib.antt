-- ===== src/Lib.antt =====
-- RT-Thread Nano on LLTRISC-V: the kernel of os/rt-thread-nano, as configured for the board
-- tang-nano-9k (8 priorities, a skip list of one level, no soft timers, no heap, no debug checks).
--
-- The program. Threads stand in ready queues by priority and in the suspend lists of the objects
-- that they wait for; the scheduler runs the first thread of the best ready priority. A wait with a
-- timeout arms the thread's timer; the clock interrupt counts the time slice of the running thread
-- and calls the timers that are due, whose function makes a waiting thread ready again. Semaphores,
-- mutexes, mailboxes, message queues and events suspend and resume threads through the shared
-- functions of ipc.c. Message queues copy their messages with rt_memcpy.
--
-- The files, with the part of os/rt-thread-nano that each is about. A definition is named after its
-- C function without `rt_`, with `_call` where the name is also that of a state.
--   Prelude, Bits, Bits/Step, Bits/Sets   shared names, lemmas on lists, tests and bits
--   Bits/Ffs          __rt_ffs and its table, os/rt-thread-nano/src/kservice.c
--   Kernel            the control blocks of os/rt-thread-nano/include/rtdef.h, the kernel's globals
--   Scheduler         os/rt-thread-nano/src/scheduler.c, and rt_hw_context_switch_interrupt of
--                     os/rt-thread-nano/libcpu/risc-v/lltrisc-v/cpuport.c; below it the invariant of the
--                     ready queues, the choice of the thread, the start, critical sections
--   Timer             os/rt-thread-nano/src/timer.c; Order: start and stop, Check: rt_timer_check
--   Thread            os/rt-thread-nano/src/thread.c; Boot, Invariant, Lifecycle, Sleep, Priority;
--                     Exit: the end of a thread
--   Clock             os/rt-thread-nano/src/clock.c and irq.c beside it; Slice: the time slice, Safe, Due,
--                     Ends and Tick: the clock interrupt, Sleep; Delay: the delays of thread.c
--   Memory            rt_memset, rt_memcpy, rt_memmove and the string functions of
--                     os/rt-thread-nano/src/kservice.c (Fill, Copy, Strings), and beside it Kernel/Errno: the
--                     error number of the same file
--   Heap              os/rt-thread-nano/src/mem.c; Chain and Plug: the blocks and the joining of holes, Search
--                     and Take: the parts of rt_malloc, Free, Malloc, Start
--   MemPool           os/rt-thread-nano/src/mempool.c; Blocks: the free blocks, Threads: those
--                     that wait, Calls: taking and giving back
--   Print             divide, print_number and skip_atoi of os/rt-thread-nano/src/kservice.c; Digits, Text,
--                     Bounds, Written
--   Links             the doubly linked lists of os/rt-thread-nano/include/rtservice.h; Ring: they are lists
--   Ipc               os/rt-thread-nano/src/ipc.c; Suspend, Waiting and Order: what its objects share, Sem,
--                     Mutex, Mailbox, MessageQueue and Event: the objects (Event/Bits: what a thread asks,
--                     Event/Offer: the offering of a set)
--   Examples          concrete kernels, built by the program's own calls, and the theorems applied to them
--
-- The model. One record, Kernel, holds the state; each C function is a function from kernels to
-- kernels, with the caller's object passed and returned. A pointer to a control block is a number, and
-- a list head with its nodes is the list of the numbers; a thread has one list node, so that taking it
-- out of its list (`unlink`) looks for it in all. A section with interrupts disabled is one step. A call
-- that blocks is two functions: up to rt_schedule, with the outcome `waits`, and, with `_resumed`,
-- after it. Words keep their width: ticks are modulo 2^32, counters modulo 2^8 or 2^16. What C leaves
-- undefined, as a scheduler without a ready thread, sets `fault`. Memory is a function from addresses
-- to bytes, a word being four of them; an area is taken to end below 2^32. The next words of the blocks of a
-- message queue are a store beside it: a buffer that a message is received into lies outside of the pool, in
-- blocks that are used and in free ones, as the theorems on receiving ask.
--
-- Fuel. rt_timer_check and rt_ipc_list_resume_all loop on fuel. For the first, more fuel than timers
-- are due is enough if periodic timers wait at least one tick; the second gets the length of its list
-- and one more, and its theorem shows that this is enough. The word loops of rt_memset and rt_memcpy
-- get the count, since every round takes from it, and the reset of a message queue the number of its
-- blocks; the searches of rt_malloc get the size of the heap, since a block takes more than its header.
-- A string function on a zero-terminated string gets fuel and returns `none` when it is spent;
-- more fuel than the string has bytes is enough, as it is for rt_list_len with more than the list has nodes.
-- The digits of a number get the 16 rounds that `tmp` has room for.
--
-- Not modelled: the assembly of a context switch and the stacks; deletion of threads with the idle
-- thread's cleanup; the object containers and names; what is not configured for the board (soft
-- timers, the heap, hooks, debug output, assertions), but message queues, memory
-- pools and the small memory allocator are modelled though they are not configured; the other allocators;
-- the format strings of rt_vsnprintf; the shell, the board's devices and the processor in hw.
pub mod Prelude
pub mod Bits
pub mod Kernel
pub mod Memory
pub mod Heap
pub mod MemPool
pub mod Print
pub mod Links
pub mod Scheduler
pub mod Timer
pub mod Thread
pub mod Ipc
pub mod Clock
pub mod Examples
