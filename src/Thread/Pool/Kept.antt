-- ===== src/Thread/Pool/Kept.antt =====
-- The invariant of thread/thread_pool.c over the steps of the client, and over all steps.
use apue_pratice.Prelude.{ℕ, ◌≡◌, refl, ◌≢◌, true, false, none, some, arith}
use apue_pratice.Thread.Pool.{
  max_tasks, nobody, worker, client, Shared, WorkerPc, ClientPc, WorkerMove, ClientMove, call_add,
  lock_add, store, lock_wait, State, by_worker, by_client, Reach, start, next,
}
use apue_pratice.Thread.Family.{change}
use apue_pratice.Thread.Pool.Invariant.{
  in_mtx, in_tasks, aims_at, works_on, client_in_tasks, fills, client_waited, Inv, first_free-free,
  move-owns_mtx, move-owns_tasks, move-client_owns, move-aimed, move-free_slot, move-pending_locked,
  move-working_locked, move-one_worker, move-held_done, move-held_quiet,
}

-- The premise of a step of the client.
abbrev ClientGuard :
    {m m' : Shared} {ws ws' : ℕ → WorkerPc} {c c' : ClientPc} → ClientMove m ws c m' ws' c' → Type 0
ClientGuard {m} (lock_add _) = m.task_mtx ≡ nobody
ClientGuard {m} (store {k} _) = m.waits k ≡ false
ClientGuard {m} (lock_wait {k} _) = m.waits k ≡ false
ClientGuard _ = Unit

client_guard :
    {m m' : Shared} {ws ws' : ℕ → WorkerPc} {c c' : ClientPc} (mv : ClientMove m ws c m' ws' c')
    → ClientGuard mv
client_guard (lock_add g) = g
client_guard (store g) = g
client_guard (lock_wait g) = g
client_guard _ = tt

module _ {m : Shared} {ws : ℕ → WorkerPc} {c : ClientPc} (inv : Inv m ws c) where
  open inv use {
    owns_mtx, owns_tasks, client_owns, aimed, free_slot, pending_locked, working_locked, one_worker,
    held_done, held_quiet,
  }

  client-owns_mtx :
      {m' : Shared} {ws' : ℕ → WorkerPc} {d c' : ClientPc}
      → ClientMove m ws d m' ws' c'
      → c ≡ d
      → (j : ℕ) → in_mtx (ws' j) ≡ true
      → m'.mtx ≡ some j
  client-owns_mtx (call_add _) e j q = owns_mtx j q
  client-owns_mtx mv e j q = ground (arith, owns_mtx j)

  client-owns_tasks :
      {m' : Shared} {ws' : ℕ → WorkerPc} {d c' : ClientPc}
      → ClientMove m ws d m' ws' c'
      → c ≡ d
      → (j : ℕ) → in_tasks (ws' j) ≡ true
      → m'.task_mtx ≡ worker j
  client-owns_tasks (call_add _) e j q = owns_tasks j q
  client-owns_tasks mv e j q = ground (arith, client_guard mv, client_owns, owns_tasks j)

  client-client_owns :
      {m' : Shared} {ws' : ℕ → WorkerPc} {d c' : ClientPc}
      → ClientMove m ws d m' ws' c'
      → c ≡ d
      → client_in_tasks c' ≡ true
      → m'.task_mtx ≡ client
  client-client_owns (call_add _) e q = cc
  client-client_owns mv e q = ground (arith, client_guard mv, client_owns)

  client-aimed :
      {m' : Shared} {ws' : ℕ → WorkerPc} {d c' : ClientPc}
      → ClientMove m ws d m' ws' c'
      → c ≡ d
      → (j k : ℕ) → aims_at (ws' j) ≡ some k
      → m'.tasks k ≢ none
  client-aimed (call_add _) e j k q = aimed j k q
  client-aimed mv e j k q = ground (arith, client_guard mv, aimed j k)

  client-free_slot :
      {m' : Shared} {ws' : ℕ → WorkerPc} {d c' : ClientPc}
      → ClientMove m ws d m' ws' c'
      → c ≡ d
      → (k : ℕ) → fills c' ≡ some k
      → m'.tasks k ≡ none
  client-free_slot (call_add _) e k q = cc
  client-free_slot mv e k q = ground (arith, free_slot k, first_free-free max_tasks 0 k m.tasks)

  client-pending_locked :
      {m' : Shared} {ws' : ℕ → WorkerPc} {d c' : ClientPc}
      → ClientMove m ws d m' ws' c'
      → c ≡ d
      → (k : ℕ) → m'.tasks k ≢ none
      → m'.waits k ≡ true
  client-pending_locked (call_add _) e k q = pending_locked k q
  client-pending_locked mv e k q = ground (arith, client_guard mv, pending_locked k, held_done k)

  client-working_locked :
      {m' : Shared} {ws' : ℕ → WorkerPc} {d c' : ClientPc}
      → ClientMove m ws d m' ws' c'
      → c ≡ d
      → (j k : ℕ) → works_on (ws' j) ≡ some k
      → (m'.waits k ≡ true) × (m'.tasks k ≡ none)
  client-working_locked (call_add _) e j k q = working_locked j k q
  client-working_locked mv e j k q =
      ground (arith, client_guard mv, working_locked j k, held_quiet j k)

  client-one_worker :
      {m' : Shared} {ws' : ℕ → WorkerPc} {d c' : ClientPc}
      → ClientMove m ws d m' ws' c'
      → c ≡ d
      → (i j k : ℕ) → works_on (ws' i) ≡ some k
      → works_on (ws' j) ≡ some k
      → i ≡ j
  client-one_worker (call_add _) e i j k q r = one_worker i j k q r
  client-one_worker mv e i j k q r = ground (arith, one_worker i j k)

  client-held_done :
      {m' : Shared} {ws' : ℕ → WorkerPc} {d c' : ClientPc}
      → ClientMove m ws d m' ws' c'
      → c ≡ d
      → (k : ℕ) → client_waited c' ≡ some k
      → (m'.waits k ≡ true) × (m'.tasks k ≡ none)
  client-held_done (call_add _) e k q = cc
  client-held_done mv e k q = ground (arith, client_guard mv, pending_locked k)

  client-held_quiet :
      {m' : Shared} {ws' : ℕ → WorkerPc} {d c' : ClientPc}
      → ClientMove m ws d m' ws' c'
      → c ≡ d
      → (i k : ℕ) → client_waited c' ≡ some k
      → works_on (ws' i) ≢ some k
  client-held_quiet (call_add _) e i k q = cc
  client-held_quiet mv e i k q = ground (arith, client_guard mv, working_locked i k)

  client-Inv :
      {m' : Shared} {ws' : ℕ → WorkerPc} {c' : ClientPc}
      → ClientMove m ws c m' ws' c'
      → Inv m' ws' c'
  client-Inv mv = record {
    owns_mtx = client-owns_mtx mv refl;
    owns_tasks = client-owns_tasks mv refl;
    client_owns = client-client_owns mv refl;
    aimed = client-aimed mv refl;
    free_slot = client-free_slot mv refl;
    pending_locked = client-pending_locked mv refl;
    working_locked = client-working_locked mv refl;
    one_worker = client-one_worker mv refl;
    held_done = client-held_done mv refl;
    held_quiet = client-held_quiet mv refl;
  }

  worker-Inv :
      (i : ℕ) {m' : Shared} {p : WorkerPc} → WorkerMove i m (ws i) m' p → Inv m' (change i p ws) c
  worker-Inv i mv = record {
    owns_mtx = move-owns_mtx inv i mv refl;
    owns_tasks = move-owns_tasks inv i mv refl;
    client_owns = move-client_owns inv i mv refl;
    aimed = move-aimed inv i mv refl;
    free_slot = move-free_slot inv i mv refl;
    pending_locked = move-pending_locked inv i mv refl;
    working_locked = move-working_locked inv i mv refl;
    one_worker = move-one_worker inv i mv refl;
    held_done = move-held_done inv i mv refl;
    held_quiet = move-held_quiet inv i mv refl;
  }

-- Every reachable state meets the invariant: each mutex is held by one thread, each pending or taken
-- task has its `waits` mutex locked, and no two workers have the same task.
pub Reach-Inv : {n : ℕ} {s : State} → Reach n s → Inv s.mem s.workers s.main
Reach-Inv start = record {
  owns_mtx = λ i q. cc;
  owns_tasks = λ i q. cc;
  client_owns = λ q. cc;
  aimed = λ i k q. cc;
  free_slot = λ k q. cc;
  pending_locked = λ k q. absurd (q refl);
  working_locked = λ i k q. cc;
  one_worker = λ i j k q r. cc;
  held_done = λ k q. cc;
  held_quiet = λ i k q. cc;
}
Reach-Inv (next r (by_worker i h mv)) = worker-Inv (Reach-Inv r) i mv
Reach-Inv (next r (by_client mv)) = client-Inv (Reach-Inv r) mv
