-- ===== src/Thread/Cancel/Tests.antt =====
-- The thread has counted once, and `main` has cancelled it.
use apue_pratice.Prelude.{◌≢◌, refl}
use apue_pratice.Thread.Cancel.{
  ended, joined, Cancelling, CancelStep, create, switch_off, count, cancel, CancelReach, start,
  next, cancel_never_joins,
}

abbrev asked_to_end : (s : Cancelling) × CancelReach s
asked_to_end =
    (_, next (next (next (next start (create refl)) (switch_off refl)) (count refl)) (cancel refl))

cancel_never_joins_example :
    (asked_to_end.0.routine ≢ ended)
    × (asked_to_end.0.main ≢ joined)
    × ((t : Cancelling) × CancelStep asked_to_end.0 t)
cancel_never_joins_example = cancel_never_joins asked_to_end.1
