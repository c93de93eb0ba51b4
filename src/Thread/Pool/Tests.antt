-- ===== src/Thread/Pool/Tests.antt =====
-- Runs of the pool of thread/thread_pool.c with one worker.
use native.Mathlib.Decide.{ℕ_discrete}
use mathlib.Core.Path.{subst}
use apue_pratice.Prelude.{
  ℕ, zero, suc, ◌+◌, ◌≡◌, refl, ◌≢◌, true, false, Option, none, some, [], ◌∷◌, arith,
}
use apue_pratice.Thread.Pool.Close as Close
use apue_pratice.Thread.Pool.Close.{
  Closing, CloseReach, cancel, leave, end_worker, tp_close, close_is_undefined,
}
use apue_pratice.Prelude.Outcome.{fault}
use apue_pratice.Thread.Pool.{
  max_tasks, Job, nobody, worker, Shared, WorkerPc, at_top, searching, scanning, empty_handed,
  asleep, found, taking, taken, running, ran, ready, waiting, waited, first_task, first_free,
  after_scan, WorkerMove, lock_mtx, lock_tasks, scan, lock_run, take_task, unlock_mtx, execute,
  unlock_wait, call_add, lock_add, store, broadcast, call_wait, lock_wait, State, after_init, Reach,
  start,
}
use apue_pratice.Thread.Family.{change}
use apue_pratice.Thread.Pool.Invariant.{works_on}
use apue_pratice.Thread.Pool.Laws.{mtx_exclusion, wait_means_done}
use apue_pratice.Thread.Pool.Jobs.{total, pending, in_hand, jobs_conserved}
use apue_pratice.Thread.Pool.Lost.{place_at, client_step, worker_step, lost_wakeup}

abbrev job : Job
job = record { task = 7; arg = 30011 }

-- Worker 0 has come to `p`.
abbrev move_to : State → Shared → WorkerPc → State
move_to s m p = record { mem = m; workers = change 0 p s.workers; main = s.main }

-- The loop of `find_task_lock` ends with `o`.
scan_at :
    {i : ℕ} {m : Shared} {o : Option ℕ}
    → first_task max_tasks 0 m.tasks ≡ o
    → WorkerMove i m scanning (record m { task_mtx = nobody }) (after_scan o)
scan_at {i} {m} q =
    subst (λ o. WorkerMove i m scanning (record m { task_mtx = nobody }) (after_scan o)) q scan

first_task-empty : (n i : ℕ) → first_task n i (λ _. none) ≡ none
unfolding first_task
first_task-empty zero i = refl
first_task-empty (suc n) i = first_task-empty n (i + 1)

-- The worker is the first to run and finds nothing.
abbrev idle_mem : Shared
idle_mem = record after_init.mem { mtx = some 0 }

locked : Reach 1 (move_to after_init idle_mem searching)
locked = worker_step 0 start (ground arith) refl (lock_mtx refl)

idle_run : Reach 1 (
    move_to
      (move_to
        (move_to after_init idle_mem searching)
        (record idle_mem { task_mtx = worker 0 })
        scanning)
      idle_mem
      empty_handed)
unfolding ℕ_discrete
idle_run =
    worker_step 0 (worker_step 0 locked (ground arith) refl (lock_tasks refl)) (ground arith) refl
      (scan_at (first_task-empty max_tasks 0))

-- The client adds `job` in slot 0 while the worker is at the top.
abbrev added_mem : Shared
added_mem = record after_init.mem {
  tasks = change 0 (some job) (λ _. none);
  waits = change 0 true (λ _. false);
  added = job ∷ [];
}

abbrev after_add : State
after_add = record { mem = added_mem; workers = λ _. at_top; main = ready }

added_run : Reach 1 after_add
unfolding first_free
added_run =
    client_step
      (client_step
        (client_step (client_step (client_step start refl (call_add job)) refl (lock_add refl)) refl
          (place_at refl))
        refl (store refl))
      refl broadcast

abbrev after_lock : State
after_lock = move_to after_add (record added_mem { mtx = some 0 }) searching

abbrev after_find : State
after_find =
    move_to (move_to after_lock (record after_lock.mem { task_mtx = worker 0 }) scanning)
      after_lock.mem (found 0)

found_run : Reach 1 after_find
unfolding ℕ_discrete first_task
found_run =
    worker_step 0
      (worker_step 0 (worker_step 0 added_run (ground arith) refl (lock_mtx refl)) (ground arith)
        refl (lock_tasks refl))
      (ground arith) refl (scan_at refl)

abbrev after_take : State
after_take =
    move_to (move_to after_find (record after_lock.mem { task_mtx = worker 0 }) (taking 0))
      (record after_lock.mem { tasks = change 0 none added_mem.tasks }) (taken 0 job)

taken_run : Reach 1 after_take
unfolding ℕ_discrete
taken_run =
    worker_step 0 (worker_step 0 found_run (ground arith) refl (lock_run refl)) (ground arith) refl
      (take_task job refl)

abbrev after_unlock : State
after_unlock = move_to after_take (record after_take.mem { mtx = none }) (running 0 job)

abbrev after_run : State
after_run = move_to after_unlock (record after_unlock.mem { executed = job ∷ [] }) (ran 0)

abbrev after_done : State
after_done =
    move_to after_run (record after_run.mem { waits = change 0 false added_mem.waits }) at_top

done_run : Reach 1 after_done
unfolding ℕ_discrete
done_run =
    worker_step 0
      (worker_step 0 (worker_step 0 taken_run (ground arith) refl unlock_mtx) (ground arith) refl
        execute)
      (ground arith) refl unlock_wait

abbrev after_wait : State
after_wait = record {
  mem = record after_done.mem { waits = change 0 true after_done.mem.waits };
  workers = after_done.workers;
  main = waited 0;
}

waited_run : Reach 1 after_wait
unfolding ℕ_discrete
waited_run =
    client_step (client_step done_run refl (call_wait 0 (ground arith))) refl (lock_wait refl)

mtx_exclusion_example : ◌≡◌ {A = ℕ} 0 0
mtx_exclusion_example = mtx_exclusion 0 0 found_run (ground arith) (ground arith)

wait_means_done_example :
    (after_wait.mem.tasks 0 ≡ none) × (works_on (after_wait.workers 0) ≢ some 0)
wait_means_done_example = wait_means_done 0 waited_run refl

jobs_conserved_example :
    total Job.arg after_take.mem.added
    ≡ pending Job.arg after_take.mem
      + in_hand Job.arg 1 after_take.workers
      + total Job.arg after_take.mem.executed
jobs_conserved_example = jobs_conserved Job.arg taken_run

lost_wakeup_example :
    (t : State) × Reach 1 t
    × (t.mem.tasks 0 ≡ some job)
    × (t.mem.waits 0 ≡ true)
    × (t.workers 0 ≡ asleep)
    × (t.main ≡ waiting 0)
unfolding ℕ_discrete first_free
lost_wakeup_example = lost_wakeup job idle_run refl refl refl refl refl (ground arith)

first_left : change 0 true (λ _. false) 0 ≡ true
first_left = ground arith

-- Two idle workers are cancelled and one of them ends.
abbrev one_ended : (c : Closing) × CloseReach 2 c
one_ended = (
  _,
  Close.next
      (Close.next
        (Close.next (Close.next Close.start (cancel (omega arith))) (cancel (omega arith)))
        (leave 0 (omega arith) refl))
      (end_worker 0 (omega arith) first_left refl refl),
)

close_is_undefined_example :
    (tp_close 2 one_ended.0 ≡ fault)
    × ((i j : ℕ) → one_ended.0.ended i ≡ true → one_ended.0.ended j ≡ true → i ≡ j)
close_is_undefined_example = close_is_undefined 2 one_ended.0 one_ended.1 (omega arith)
