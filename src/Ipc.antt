-- ===== src/Ipc.antt =====
-- Two processes that talk: over memory in ipc/shm.c and adio/mmap_share.c, over a pipe in ipc/pipe.c, over a
-- message queue in ipc/msg.c.
pub mod Shared
pub mod SharedTexts
pub mod Stream
pub mod Queue
mod Tests
