-- ===== src/Thread/Pool/Invariant.antt =====
-- Who holds which mutex of thread/thread_pool.c, and which slots are in use: true after `tp_init` and
-- kept by every step.
use apue_pratice.Prelude.{
  ℕ, zero, suc, ◌+◌, ◌<◌, ◌≡◌, ◌≢◌, Bool, true, false, Option, none, some, arith,
}
use apue_pratice.Thread.Pool.{
  max_tasks, Job, nobody, worker, client, Shared, WorkerPc, searching, scanning, empty_handed,
  found, taking, taken, running, ran, ClientPc, placing, locking, waited, first_task, first_free,
  WorkerMove, lock_mtx, lock_tasks, scan, relock, lock_run, take_task, take_nothing,
}
use apue_pratice.Thread.Family.{change}

-- The worker holds `mtx`.
abbrev pub in_mtx : WorkerPc → Bool
in_mtx searching = true
in_mtx scanning = true
in_mtx empty_handed = true
in_mtx (found _) = true
in_mtx (taking _) = true
in_mtx (taken _ _) = true
in_mtx _ = false

-- The worker holds `task_mtx`.
abbrev pub in_tasks : WorkerPc → Bool
in_tasks scanning = true
in_tasks (taking _) = true
in_tasks _ = false

-- The slot that the worker found a task in.
abbrev pub aims_at : WorkerPc → Option ℕ
aims_at (found k) = some k
aims_at (taking k) = some k
aims_at _ = none

-- The slot whose task the worker took and has not reported done.
abbrev pub works_on : WorkerPc → Option ℕ
works_on (taken k _) = some k
works_on (running k _) = some k
works_on (ran k) = some k
works_on _ = none

-- The client holds `task_mtx`.
abbrev pub client_in_tasks : ClientPc → Bool
client_in_tasks (placing _) = true
client_in_tasks (locking _ _) = true
client_in_tasks _ = false

-- The slot that the client is about to fill.
abbrev pub fills : ClientPc → Option ℕ
fills (locking k _) = some k
fills _ = none

-- The slot whose mutex the client holds at the end of `tp_wait_task`.
abbrev pub client_waited : ClientPc → Option ℕ
client_waited (waited k) = some k
client_waited _ = none

pub record Inv (m : Shared) (ws : ℕ → WorkerPc) (c : ClientPc) : Type 0 where
  pub owns_mtx : (i : ℕ) → in_mtx (ws i) ≡ true → m.mtx ≡ some i
  pub owns_tasks : (i : ℕ) → in_tasks (ws i) ≡ true → m.task_mtx ≡ worker i
  pub client_owns : client_in_tasks c ≡ true → m.task_mtx ≡ client
  pub aimed : (i k : ℕ) → aims_at (ws i) ≡ some k → m.tasks k ≢ none
  pub free_slot : (k : ℕ) → fills c ≡ some k → m.tasks k ≡ none
  pub pending_locked : (k : ℕ) → m.tasks k ≢ none → m.waits k ≡ true
  pub working_locked :
      (i k : ℕ) → works_on (ws i) ≡ some k → (m.waits k ≡ true) × (m.tasks k ≡ none)
  pub one_worker : (i j k : ℕ) → works_on (ws i) ≡ some k → works_on (ws j) ≡ some k → i ≡ j
  pub held_done : (k : ℕ) → client_waited c ≡ some k → (m.waits k ≡ true) × (m.tasks k ≡ none)
  pub held_quiet : (i k : ℕ) → client_waited c ≡ some k → works_on (ws i) ≢ some k

-- The search finds a pending task.
pub first_task-pending :
    (n i k : ℕ) (tasks : ℕ → Option Job) → first_task n i tasks ≡ some k → tasks k ≢ none
unfolding first_task
first_task-pending zero i k tasks q = cc
first_task-pending (suc n) i k tasks q = ground (arith, first_task-pending n (i + 1) k tasks)

-- The search finds a free slot of the array.
pub first_free-free :
    (n i k : ℕ) (tasks : ℕ → Option Job)
    → first_free n i tasks ≡ some k
    → (tasks k ≡ none) × (k < i + n)
unfolding first_free
first_free-free zero i k tasks q = cc
first_free-free (suc n) i k tasks q = ground (arith, first_free-free n (i + 1) k tasks)

-- The premise of a step.
abbrev Guard : {i : ℕ} {m m' : Shared} {p p' : WorkerPc} → WorkerMove i m p m' p' → Type 0
Guard {m} (lock_mtx _) = m.mtx ≡ none
Guard {m} (lock_tasks _) = m.task_mtx ≡ nobody
Guard {m} (relock _) = m.mtx ≡ none
Guard {m} (lock_run _) = m.task_mtx ≡ nobody
Guard {m} (take_task {k} j _) = m.tasks k ≡ some j
Guard {m} (take_nothing {k} _) = m.tasks k ≡ none
Guard _ = Unit

guard : {i : ℕ} {m m' : Shared} {p p' : WorkerPc} (mv : WorkerMove i m p m' p') → Guard mv
guard (lock_mtx g) = g
guard (lock_tasks g) = g
guard (relock g) = g
guard (lock_run g) = g
guard (take_task j g) = g
guard (take_nothing g) = g
guard _ = tt

module _ {m : Shared} {ws : ℕ → WorkerPc} {c : ClientPc} (inv : Inv m ws c) (i : ℕ) where
  open inv use {
    owns_mtx, owns_tasks, client_owns, aimed, free_slot, pending_locked, working_locked, one_worker,
    held_done, held_quiet,
  }

  pub move-owns_mtx :
      {m' : Shared} {p p' : WorkerPc}
      → WorkerMove i m p m' p'
      → ws i ≡ p
      → (j : ℕ) → in_mtx (change i p' ws j) ≡ true
      → m'.mtx ≡ some j
  move-owns_mtx (lock_mtx g) e j q = ground (arith, owns_mtx j, owns_mtx i)
  move-owns_mtx mv e j q = ground (arith, guard mv, owns_mtx j, owns_mtx i)

  pub move-owns_tasks :
      {m' : Shared} {p p' : WorkerPc}
      → WorkerMove i m p m' p'
      → ws i ≡ p
      → (j : ℕ) → in_tasks (change i p' ws j) ≡ true
      → m'.task_mtx ≡ worker j
  move-owns_tasks (lock_mtx g) e j q = ground (arith, owns_tasks j, owns_tasks i)
  move-owns_tasks mv e j q = ground (arith, guard mv, owns_tasks j, owns_tasks i)

  pub move-client_owns :
      {m' : Shared} {p p' : WorkerPc}
      → WorkerMove i m p m' p'
      → ws i ≡ p
      → client_in_tasks c ≡ true
      → m'.task_mtx ≡ client
  move-client_owns (lock_mtx g) e q = ground (arith, client_owns q, owns_tasks i)
  move-client_owns mv e q = ground (arith, guard mv, client_owns q, owns_tasks i)

  pub move-aimed :
      {m' : Shared} {p p' : WorkerPc}
      → WorkerMove i m p m' p'
      → ws i ≡ p
      → (j k : ℕ) → aims_at (change i p' ws j) ≡ some k
      → m'.tasks k ≢ none
  move-aimed scan e j k q = ground (arith, aimed j k, first_task-pending max_tasks 0 k m.tasks)
  move-aimed mv e j k q = ground (arith, guard mv, aimed j k, aimed i k, owns_mtx i, owns_mtx j)

  pub move-free_slot :
      {m' : Shared} {p p' : WorkerPc}
      → WorkerMove i m p m' p'
      → ws i ≡ p
      → (k : ℕ) → fills c ≡ some k
      → m'.tasks k ≡ none
  move-free_slot (lock_mtx g) e k q = ground (arith, free_slot k q)
  move-free_slot mv e k q = ground (arith, free_slot k q)

  pub move-pending_locked :
      {m' : Shared} {p p' : WorkerPc}
      → WorkerMove i m p m' p'
      → ws i ≡ p
      → (k : ℕ) → m'.tasks k ≢ none
      → m'.waits k ≡ true
  move-pending_locked (lock_mtx g) e k q = ground (arith, pending_locked k, working_locked i k)
  move-pending_locked mv e k q = ground (arith, guard mv, pending_locked k, working_locked i k)

  pub move-working_locked :
      {m' : Shared} {p p' : WorkerPc}
      → WorkerMove i m p m' p'
      → ws i ≡ p
      → (j k : ℕ) → works_on (change i p' ws j) ≡ some k
      → (m'.waits k ≡ true) × (m'.tasks k ≡ none)
  move-working_locked (lock_mtx g) e j k q =
      ground (arith, pending_locked k, working_locked j k, working_locked i k, one_worker i j k)
  move-working_locked mv e j k q =
      ground (
        arith,
        guard mv,
        pending_locked k,
        working_locked j k,
        working_locked i k,
        one_worker i j k,
      )

  pub move-one_worker :
      {m' : Shared} {p p' : WorkerPc}
      → WorkerMove i m p m' p'
      → ws i ≡ p
      → (j l k : ℕ) → works_on (change i p' ws j) ≡ some k
      → works_on (change i p' ws l) ≡ some k
      → j ≡ l
  move-one_worker (lock_mtx g) e j l k q r = ground (
    arith,
    aimed i k,
    working_locked j k,
    working_locked l k,
    one_worker j l k,
    one_worker i j k,
    one_worker i l k,
  )
  move-one_worker mv e j l k q r = ground (
    arith,
    guard mv,
    aimed i k,
    working_locked j k,
    working_locked l k,
    one_worker j l k,
    one_worker i j k,
    one_worker i l k,
  )

  pub move-held_done :
      {m' : Shared} {p p' : WorkerPc}
      → WorkerMove i m p m' p'
      → ws i ≡ p
      → (k : ℕ) → client_waited c ≡ some k
      → (m'.waits k ≡ true) × (m'.tasks k ≡ none)
  move-held_done (lock_mtx g) e k q = ground (arith, held_done k q, held_quiet i k q)
  move-held_done mv e k q = ground (arith, guard mv, held_done k q, held_quiet i k q)

  pub move-held_quiet :
      {m' : Shared} {p p' : WorkerPc}
      → WorkerMove i m p m' p'
      → ws i ≡ p
      → (j k : ℕ) → client_waited c ≡ some k
      → works_on (change i p' ws j) ≢ some k
  move-held_quiet (lock_mtx g) e j k q =
      ground (arith, held_done k q, held_quiet j k q, held_quiet i k q)
  move-held_quiet mv e j k q =
      ground (arith, guard mv, held_done k q, held_quiet j k q, held_quiet i k q)
