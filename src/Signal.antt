-- ===== src/Signal.antt =====
-- The programs of signal/: the token bucket library, the timer library, two cats that tokens slow down, and one
-- that an alarm drives.
pub mod Cat
pub mod Tbf
pub mod Timer
pub mod Token
pub mod SlowCat
