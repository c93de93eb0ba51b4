-- ===== src/Adio.antt =====
-- The programs of adio/ that copy several files at once, over select, poll and epoll.
pub mod Pipe
pub mod Select
pub mod Poll
pub mod Epoll
mod Tests
