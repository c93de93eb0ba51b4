-- ===== src/Thread/Pool/Lost.antt =====
-- Two threads of thread/thread_pool.c that miss each other: `tp_add_task` broadcasts without `mtx`.
use mathlib.Core.Path.{subst}
use apue_pratice.Prelude.{ℕ, ◌<◌, ◌≡◌, refl, sym, ap, true, false, some, arith}
use apue_pratice.Thread.Pool.{
  max_tasks, Job, nobody, client, Shared, WorkerPc, empty_handed, asleep, ClientPc, ready, placing,
  locking, waiting, first_free, WorkerMove, sleep, wake_up, after_place, place_mtx, ClientMove,
  call_add, lock_add, place, store, broadcast, call_wait, State, by_worker, by_client, Reach, next,
}
use apue_pratice.Thread.Family.{change}

-- A step of the client from where it stands.
pub client_step :
    {n : ℕ} {s : State} {m : Shared} {ws : ℕ → WorkerPc} {c c' : ClientPc}
    → Reach n s
    → s.main ≡ c
    → ClientMove s.mem s.workers c m ws c'
    → Reach n (record { mem = m; workers = ws; main = c' })
client_step {s} {m} {ws} {c'} r e mv =
    next r (by_client (subst (λ c. ClientMove s.mem s.workers c m ws c') (sym e) mv))

-- A step of worker `i` from where it stands.
pub worker_step :
    {n : ℕ} {s : State} {m : Shared} {p p' : WorkerPc} (i : ℕ)
    → Reach n s
    → i < n
    → s.workers i ≡ p
    → WorkerMove i s.mem p m p'
    → Reach n (record { mem = m; workers = change i p' s.workers; main = s.main })
worker_step {s} {m} {p'} i r h e mv =
    next r (by_worker i h (subst (λ p. WorkerMove i s.mem p m p') (sym e) mv))

-- The loop of `tp_add_task` stops at slot `k`.
pub place_at :
    {m : Shared} {ws : ℕ → WorkerPc} {j : Job} {k : ℕ}
    → first_free max_tasks 0 m.tasks ≡ some k
    → ClientMove m ws (placing j) (record m { task_mtx = client }) ws (locking k j)
place_at {m} {ws} {j} q =
    subst
      (λ o. ClientMove m ws (placing j) (record m { task_mtx = place_mtx o }) ws (after_place j o))
      q place

-- In a pool of one worker that searched in vain and has not come to `pthread_cond_wait`, a call of
-- `tp_add_task` that finds slot `k` free, with `task_mtx` and the mutex of the slot free, can
-- broadcast before the wait. Then the task is pending, the worker sleeps, and `tp_wait_task` waits
-- for the worker.
pub lost_wakeup :
    {s : State} {k : ℕ} (j : Job)
    → Reach 1 s
    → s.workers 0 ≡ empty_handed
    → s.main ≡ ready
    → s.mem.task_mtx ≡ nobody
    → first_free max_tasks 0 s.mem.tasks ≡ some k
    → s.mem.waits k ≡ false
    → k < max_tasks
    → (t : State) × Reach 1 t
      × (t.mem.tasks k ≡ some j)
      × (t.mem.waits k ≡ true)
      × (t.workers 0 ≡ asleep)
      × (t.main ≡ waiting k)
lost_wakeup {s} {k} j r w c free slot open_slot below =
    let placing_it = client_step (client_step r c (call_add j)) refl (lock_add free) in
    let stored = client_step (client_step placing_it refl (place_at slot)) refl (store open_slot) in
    let slept =
      worker_step 0 (client_step stored refl broadcast) (ground arith) (ap wake_up w) sleep in
    (_, client_step slept refl (call_wait k below), ground arith, ground arith, ground arith, refl)
