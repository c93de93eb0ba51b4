-- ===== src/Thread.antt =====
-- The programs of thread/ in which threads share state or are cancelled; ipc/sem_arr.c is with the counters.
pub mod Family
pub mod Pool
pub mod Cancel
