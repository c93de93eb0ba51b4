-- ===== src/Signal/Timer/Tests.antt =====
-- Runs of the timer library, and its theorems at them.
use apue_pratice.Prelude.{
  ℕ, ◌≡◌, refl, true, none, some, List, [], ◌∷◌, ◌++◌, arith, get_elem?, replicate,
}
use apue_pratice.Prelude.Int.{ℤ, pos, negsuc, ◌-ℤ◌}
use apue_pratice.Prelude.Outcome.{done}
use apue_pratice.Prelude.CInt.{sub_int}
use apue_pratice.Slots.{Slot, null, live, first_null}
use apue_pratice.Signal.Timer.{
  Task, Call, Timer, at_start, tick, handle, getf_free_pos, set_up, add_at, at_add_job,
  at_cancel_job, at_wait,
}
use apue_pratice.Signal.Timer.Ticks.{calls_from, call_of}
use apue_pratice.Signal.Timer.Fires.{alarms, fires_once, wait_ends}
use apue_pratice.Signal.Timer.Table.{IsValid, add, Reach, start, next, timer-IsValid}

-- The task that calls function 7 with argument 9, `sec` seconds from now.
abbrev task : ℤ → Task
task sec = record { sec = sec; func = 7; arg = 9; pos_field = pos 0 }

abbrev holding : Slot Task → List Call → ℕ → Timer
holding v calls blocks = record {
  tasks = v ∷ replicate 1023 null;
  inited = true;
  handled = true;
  alarm = 1;
  blocks = blocks;
  calls = calls;
}

abbrev waiting : ℤ → Timer
waiting sec = holding (live (task sec)) [] 1

abbrev fired : Timer
fired = holding null (call_of 0 (task (pos 2)) ∷ []) 0

add_runs : at_add_job true (pos 2) 7 9 at_start ≡ done (pos 0, waiting (pos 2))
unfolding at_add_job set_up getf_free_pos add_at first_null
add_runs = refl

reached : Reach (waiting (pos 2))
reached = next start (add true (pos 2) 7 9 (pos 0) add_runs)

timer-IsValid_example : IsValid (waiting (pos 2))
timer-IsValid_example = timer-IsValid (waiting (pos 2)) reached

one_alarm : alarms 1 (waiting (pos 2)) ≡ done (waiting (pos 1))
unfolding alarms handle tick sub_int ◌-ℤ◌
one_alarm = refl

two_alarms : alarms 2 (waiting (pos 2)) ≡ done fired
unfolding alarms handle tick sub_int ◌-ℤ◌
two_alarms = refl

expired_alarms : alarms 3 (waiting (pos 0)) ≡ done (waiting (negsuc 2))
unfolding alarms handle tick sub_int ◌-ℤ◌
expired_alarms = refl

fires_once_example :
    (get_elem? fired.tasks 0 ≡ some null)
    × (calls_from 0 fired.calls ≡ calls_from 0 [] ++ call_of 0 (task (pos 2)) ∷ [])
fires_once_example =
    fires_once 2 1 0 (waiting (pos 2)) (task (pos 2)) refl refl (omega arith) two_alarms

wait_ends_test : at_wait 5 (pos 0) (waiting (pos 2)) ≡ done fired
wait_ends_test = wait_ends 4 1 0 (waiting (pos 2)) (task (pos 2)) refl refl (omega arith) two_alarms

abbrev cancelled : Timer
cancelled = holding null [] 0

cancel_runs : at_cancel_job (pos 0) (waiting (pos 2)) ≡ done (none, cancelled)
unfolding at_cancel_job
cancel_runs = refl

quiet_alarms : alarms 2 cancelled ≡ done cancelled
unfolding alarms handle tick
quiet_alarms = refl
