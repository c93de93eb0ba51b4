-- ===== src/Thread/Pool.antt =====
-- The thread pool of thread/thread_pool.c: the workers of `thread_pool_routine` and one client, which
-- is the thread that calls `tp_add_task` and `tp_wait_task`. Every step is one access to shared
-- state, and what a thread does while it holds a mutex that guards all that it touches is one step.
-- The pool is initialised, and no call of `pthread` fails.
pub mod Invariant
pub mod Kept
pub mod Laws
pub mod Jobs
pub mod Lost
pub mod Close
mod Tests
use apue_pratice.Prelude.{
  ℕ, zero, suc, ◌+◌, ◌<◌, ◌≡◌, Bool, true, false, Option, none, some, List, [], ◌∷◌,
}
use apue_pratice.Thread.Family.{change}

-- MAX_TASKS
abbrev pub max_tasks : ℕ
max_tasks = 1024

-- A pending task, with its argument.
pub record Job : Type 0 where
  pub task : ℕ
  pub arg : ℕ

-- Who holds `task_mtx`.
pub data Holder : Type 0 where
  nobody : Holder
  worker : ℕ → Holder
  client : Holder

-- The arrays `tasks` and `args`, the mutexes, and, to speak of the past, the jobs added and the jobs
-- executed.
pub record Shared : Type 0 where
  pub tasks : ℕ → Option Job
  pub mtx : Option ℕ
  pub task_mtx : Holder
  pub waits : ℕ → Bool
  pub added : List Job
  pub executed : List Job

-- Where a worker stands, with the locals that are live there.
pub data WorkerPc : Type 0 where
  at_top : WorkerPc  -- before `pthread_mutex_lock(&p->mtx)`
  searching : WorkerPc  -- before `find_task_lock` locks `task_mtx`
  scanning : WorkerPc  -- in the loop of `find_task_lock`
  empty_handed : WorkerPc  -- before `pthread_cond_wait`
  asleep : WorkerPc  -- in `pthread_cond_wait`
  woken : WorkerPc  -- before `pthread_cond_wait` has `mtx` again
  found : ℕ → WorkerPc  -- before `run_task_lock` locks `task_mtx`
  taking : ℕ → WorkerPc  -- `run_task_lock` holds `task_mtx`
  taken : ℕ → Job → WorkerPc  -- before `pthread_mutex_unlock(&p->mtx)`
  running : ℕ → Job → WorkerPc  -- in `task(args)`
  ran : ℕ → WorkerPc  -- before `pthread_mutex_unlock(p->waits + id)`

-- Where the client stands.
pub data ClientPc : Type 0 where
  ready : ClientPc  -- between two calls
  adding : Job → ClientPc  -- `tp_add_task`, before it locks `task_mtx`
  placing : Job → ClientPc  -- in the loop of `tp_add_task`
  locking : ℕ → Job → ClientPc  -- before `pthread_mutex_lock(pool->waits + i)`
  notifying : ClientPc  -- before `pthread_cond_broadcast`
  waiting : ℕ → ClientPc  -- `tp_wait_task`, before it locks
  waited : ℕ → ClientPc  -- before it unlocks
  gone : ClientPc  -- after "too much tasks"

-- The loop of `find_task_lock`: the first pending task among `n` from index `i` on.
unfoldable pub first_task : ℕ → ℕ → (ℕ → Option Job) → Option ℕ
first_task zero i tasks = none
first_task (suc n) i tasks =
    let rest = first_task n (i + 1) tasks in elim (tasks i) [ some _ ↦ some i | none ↦ rest ]

-- The loop of `tp_add_task`: the first free slot.
unfoldable pub first_free : ℕ → ℕ → (ℕ → Option Job) → Option ℕ
first_free zero i tasks = none
first_free (suc n) i tasks =
    let rest = first_free n (i + 1) tasks in elim (tasks i) [ some _ ↦ rest | none ↦ some i ]

-- After the search: with a task on to `run_task_lock`, without one to the wait.
abbrev pub after_scan : Option ℕ → WorkerPc
after_scan none = empty_handed
after_scan (some k) = found k

-- One step of worker `i`.
pub data WorkerMove (i : ℕ) (m : Shared) : WorkerPc → Shared → WorkerPc → Type 0 where
  lock_mtx : m.mtx ≡ none → WorkerMove i m at_top (record m { mtx = some i }) searching
  lock_tasks :
      m.task_mtx ≡ nobody → WorkerMove i m searching (record m { task_mtx = worker i }) scanning
  scan :
      WorkerMove i m scanning
        (record m { task_mtx = nobody })
        (after_scan (first_task max_tasks 0 m.tasks))
  sleep : WorkerMove i m empty_handed (record m { mtx = none }) asleep
  wake : WorkerMove i m asleep m woken
  relock : m.mtx ≡ none → WorkerMove i m woken (record m { mtx = some i }) searching
  lock_run :
      {k : ℕ}
      → m.task_mtx ≡ nobody
      → WorkerMove i m (found k) (record m { task_mtx = worker i }) (taking k)
  take_task :
      {k : ℕ} (j : Job)
      → m.tasks k ≡ some j
      → WorkerMove i m
          (taking k)
          (record m { tasks = change k none m.tasks; task_mtx = nobody })
          (taken k j)
  -- `if (task == NULL) return;`, with `mtx` still held
  take_nothing :
      {k : ℕ} → m.tasks k ≡ none → WorkerMove i m (taking k) (record m { task_mtx = nobody }) at_top
  unlock_mtx :
      {k : ℕ} {j : Job} → WorkerMove i m (taken k j) (record m { mtx = none }) (running k j)
  execute :
      {k : ℕ} {j : Job}
      → WorkerMove i m (running k j) (record m { executed = j ∷ m.executed }) (ran k)
  unlock_wait :
      {k : ℕ} → WorkerMove i m (ran k) (record m { waits = change k false m.waits }) at_top

-- `pthread_cond_broadcast`: whoever is in `pthread_cond_wait` wakes up.
abbrev pub wake_up : WorkerPc → WorkerPc
wake_up asleep = woken
wake_up p = p

-- After the search for a free slot.
abbrev pub after_place : Job → Option ℕ → ClientPc
after_place j none = gone
after_place j (some k) = locking k j

-- Without a free slot `task_mtx` is unlocked; with one it stays locked.
abbrev pub place_mtx : Option ℕ → Holder
place_mtx none = nobody
place_mtx (some k) = client

-- One step of the client, which sees the workers only in `pthread_cond_broadcast`.
pub data ClientMove (m : Shared) (ws : ℕ → WorkerPc)
    : ClientPc → Shared → (ℕ → WorkerPc) → ClientPc → Type 0 where
  call_add : (j : Job) → ClientMove m ws ready m ws (adding j)
  lock_add :
      {j : Job}
      → m.task_mtx ≡ nobody
      → ClientMove m ws (adding j) (record m { task_mtx = client }) ws (placing j)
  place :
      {j : Job}
      → ClientMove m ws
          (placing j)
          (record m { task_mtx = place_mtx (first_free max_tasks 0 m.tasks) })
          ws
          (after_place j (first_free max_tasks 0 m.tasks))
  store :
      {k : ℕ} {j : Job}
      → m.waits k ≡ false
      → ClientMove m ws
          (locking k j)
          (record m {
            tasks = change k (some j) m.tasks;
            waits = change k true m.waits;
            task_mtx = nobody;
            added = j ∷ m.added;
          })
          ws
          notifying
  broadcast : ClientMove m ws notifying m (λ i. wake_up (ws i)) ready
  call_wait : (k : ℕ) → k < max_tasks → ClientMove m ws ready m ws (waiting k)
  lock_wait :
      {k : ℕ}
      → m.waits k ≡ false
      → ClientMove m ws (waiting k) (record m { waits = change k true m.waits }) ws (waited k)
  end_wait :
      {k : ℕ} → ClientMove m ws (waited k) (record m { waits = change k false m.waits }) ws ready

pub record State : Type 0 where
  pub mem : Shared
  pub workers : ℕ → WorkerPc
  pub main : ClientPc

-- One step of one of `n` workers or of the client.
pub data Step (n : ℕ) (s : State) : State → Type 0 where
  by_worker :
      (i : ℕ) {m : Shared} {p : WorkerPc}
      → i < n
      → WorkerMove i s.mem (s.workers i) m p
      → Step n s (record { mem = m; workers = change i p s.workers; main = s.main })
  by_client :
      {m : Shared} {ws : ℕ → WorkerPc} {p : ClientPc}
      → ClientMove s.mem s.workers s.main m ws p
      → Step n s (record { mem = m; workers = ws; main = p })

-- After `tp_init`.
abbrev pub after_init : State
after_init = record {
  mem = record {
    tasks = λ _. none;
    mtx = none;
    task_mtx = nobody;
    waits = λ _. false;
    added = [];
    executed = [];
  };
  workers = λ _. at_top;
  main = ready;
}

pub data Reach (n : ℕ) : State → Type 0 where
  start : Reach n after_init
  next : {s t : State} → Reach n s → Step n s t → Reach n t
