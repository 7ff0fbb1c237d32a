-- ===== src/Concurrency.antt =====
-- src/concurrency/: the transaction queue, the processor and its consumers, the
-- locks, and the thread pool.
pub mod Queue
pub mod Processor
pub mod Locks
pub mod ThreadPool
pub mod Consumers
pub mod Tests
mod LockTests
mod PoolTests
mod RestartTests
mod ConsumerTests
