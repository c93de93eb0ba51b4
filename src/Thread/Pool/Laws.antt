-- ===== src/Thread/Pool/Laws.antt =====
-- What the mutexes of thread/thread_pool.c give its workers and its client.
use apue_pratice.Prelude.{ℕ, ◌≡◌, ap, ◌≢◌, true, none, some}
use apue_pratice.Thread.Pool.{waited, State, Reach}
use apue_pratice.Thread.Pool.Invariant.{in_mtx, aims_at, works_on, client_waited, Inv}
use apue_pratice.Thread.Pool.Kept.{Reach-Inv}

-- In a reachable state, two workers that hold `mtx` are the same worker.
pub mtx_exclusion :
    {n : ℕ} {s : State} (i j : ℕ)
    → Reach n s
    → in_mtx (s.workers i) ≡ true
    → in_mtx (s.workers j) ≡ true
    → i ≡ j
mtx_exclusion i j r p q = cc (Inv.owns_mtx (Reach-Inv r) i p, Inv.owns_mtx (Reach-Inv r) j q)

-- In a reachable state, two workers at work on the task of one slot are the same worker.
pub one_worker_per_slot :
    {n k : ℕ} {s : State} (i j : ℕ)
    → Reach n s
    → works_on (s.workers i) ≡ some k
    → works_on (s.workers j) ≡ some k
    → i ≡ j
one_worker_per_slot {k} i j r p q = Inv.one_worker (Reach-Inv r) i j k p q

-- In a reachable state, a worker that found a task in a slot and is about to take it still finds it
-- there: the test `task == NULL` of `run_task_lock`, which would return with `mtx` held, never holds.
task_still_there :
    {n k : ℕ} {s : State} (i : ℕ)
    → Reach n s
    → aims_at (s.workers i) ≡ some k
    → s.mem.tasks k ≢ none
task_still_there {k} i r q = Inv.aimed (Reach-Inv r) i k q

-- In a reachable state where `tp_wait_task(pool, k)` has the mutex of slot `k`, the slot has no
-- pending task and worker `i` is not at work on a task of that slot.
pub wait_means_done :
    {n k : ℕ} {s : State} (i : ℕ)
    → Reach n s
    → s.main ≡ waited k
    → (s.mem.tasks k ≡ none) × (works_on (s.workers i) ≢ some k)
wait_means_done {k} i r q = (
  (Inv.held_done (Reach-Inv r) k (ap client_waited q)).1,
  Inv.held_quiet (Reach-Inv r) i k (ap client_waited q),
)
