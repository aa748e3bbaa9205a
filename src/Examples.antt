-- ===== src/Examples.antt =====
-- Concrete runs of the model.
pub mod States
pub mod Threads
pub mod Timers
pub mod Objects
pub mod Events
pub mod Mutexes
pub mod Queues
pub mod Areas
pub mod Blocks
pub mod Pools
pub mod Ends
pub mod Numbers
pub mod Rings
