-- ===== src/Threadpool.antt =====
-- threadpool: the queue of work that the worker threads share.
pub mod Memory
pub mod Queue
pub mod Linked
pub mod Enqueue
pub mod Fifo
pub mod Dequeue
pub mod History
pub mod Pool
pub mod Totals
pub mod Fair
pub mod Steps
pub mod Finish
mod Tests
mod PoolTests
