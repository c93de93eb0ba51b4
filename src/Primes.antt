-- ===== src/Primes.antt =====
-- The prime programs: ps/prime.c tests each number in a child process, thread/prime.c in a thread. All
-- numbers are positive ints. The children and the threads share nothing and print one line each, in any
-- order.
pub mod Loops
pub mod Outputs
mod Tests
