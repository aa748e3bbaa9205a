-- ===== src/Kernel.antt =====
-- The kernel's state: thread control blocks, ready lists, timers and the context switch request.
-- os/rt-thread-nano/include/rtdef.h, and the variables of os/rt-thread-nano/src/scheduler.c,
-- os/rt-thread-nano/src/timer.c, os/rt-thread-nano/src/clock.c, os/rt-thread-nano/src/irq.c and
-- os/rt-thread-nano/libcpu/risc-v/lltrisc-v/cpuport.c.
pub mod State
pub mod Errno
pub mod Lists
