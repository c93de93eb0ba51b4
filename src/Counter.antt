-- ===== src/Counter.antt =====
-- Threads or processes that each add one to a shared counter under a lock: thread/mutex.c, ipc/sem_arr.c
-- and adio/flock.c. The lock and the counter are interfaces, which the three programs fill.
pub mod Model
pub mod Invariant
pub mod Kept
pub mod Refine
pub mod Ends
pub mod Mutex
pub mod Semaphore
pub mod FileLock
mod Tests
