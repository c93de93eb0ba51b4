-- ===== src/Thread/Pool/Jobs.antt =====
-- The jobs of thread/thread_pool.c: each is pending, in the hands of a worker, or executed.
use apue_pratice.Prelude.{
  ℕ, zero, suc, ◌+◌, ◌<◌, ◌≡◌, refl, ap, Option, none, some, List, [], ◌∷◌, arith,
}
use apue_pratice.Thread.Pool.{
  max_tasks, Job, Shared, WorkerPc, at_top, taken, running, ClientPc, first_task, WorkerMove, scan,
  take_task, wake_up, ClientMove, call_add, store, broadcast, State, by_worker, by_client, Reach,
  start, next,
}
use apue_pratice.Thread.Family.{change, sum_below, sum_below-change, sum_below-zero, sum_below-cong}
use apue_pratice.Thread.Pool.Invariant.{aims_at, fills, Inv, first_free-free}
use apue_pratice.Thread.Pool.Kept.{Reach-Inv}

-- The job that a worker has taken and not executed yet.
abbrev pub holds : WorkerPc → Option Job
holds (taken _ j) = some j
holds (running _ j) = some j
holds _ = none

-- The slots that the workers and the client name are slots of the array.
record Below (ws : ℕ → WorkerPc) (c : ClientPc) : Type 0 where
  pub aims : (i k : ℕ) → aims_at (ws i) ≡ some k → k < max_tasks
  pub target : (k : ℕ) → fills c ≡ some k → k < max_tasks

first_task-below : (n i k : ℕ) (tasks : ℕ → Option Job) → first_task n i tasks ≡ some k → k < i + n
unfolding first_task
first_task-below zero i k tasks q = cc
first_task-below (suc n) i k tasks q = ground (arith, first_task-below n (i + 1) k tasks)

move-aims :
    {m m' : Shared} {ws : ℕ → WorkerPc} {c : ClientPc} (i : ℕ) {p p' : WorkerPc}
    → Below ws c
    → WorkerMove i m p m' p'
    → ws i ≡ p
    → (j k : ℕ) → aims_at (change i p' ws j) ≡ some k
    → k < max_tasks
move-aims {m} i b scan e j k q =
    ground (arith, Below.aims b j k, first_task-below max_tasks 0 k m.tasks)
move-aims i b mv e j k q = ground (arith, Below.aims b j k, Below.aims b i k)

client-aims :
    {m m' : Shared} {ws ws' : ℕ → WorkerPc} {c c' : ClientPc}
    → Below ws c
    → ClientMove m ws c m' ws' c'
    → (j k : ℕ) → aims_at (ws' j) ≡ some k
    → k < max_tasks
client-aims b (call_add _) j k q = Below.aims b j k q
client-aims b mv j k q = ground (arith, Below.aims b j k)

client-target :
    {m m' : Shared} {ws ws' : ℕ → WorkerPc} {c c' : ClientPc}
    → Below ws c
    → ClientMove m ws c m' ws' c'
    → (k : ℕ) → fills c' ≡ some k
    → k < max_tasks
client-target b (call_add _) k q = cc
client-target {m} b mv k q = ground (arith, first_free-free max_tasks 0 k m.tasks)

Reach-Below : {n : ℕ} {s : State} → Reach n s → Below s.workers s.main
Reach-Below start = record { aims = λ i k q. cc; target = λ k q. cc }
Reach-Below (next r (by_worker i h mv)) = record {
  aims = move-aims i (Reach-Below r) mv refl;
  target = Below.target (Reach-Below r);
}
Reach-Below (next r (by_client mv)) = record {
  aims = client-aims (Reach-Below r) mv;
  target = client-target (Reach-Below r) mv;
}

module _ (weight : Job → ℕ) where
  abbrev pub weight_of : Option Job → ℕ
  weight_of none = 0
  weight_of (some j) = weight j

  pub total : List Job → ℕ
  total [] = 0
  total (j ∷ js) = weight j + total js

  -- The weights of the pending tasks, and of the jobs that the first `n` workers hold.
  abbrev pub pending : Shared → ℕ
  pending m = sum_below weight_of max_tasks m.tasks

  abbrev pub in_hand : ℕ → (ℕ → WorkerPc) → ℕ
  in_hand n ws = sum_below (λ p. weight_of (holds p)) n ws

  abbrev Balanced : ℕ → Shared → (ℕ → WorkerPc) → Type 0
  Balanced n m ws = total m.added ≡ pending m + in_hand n ws + total m.executed

  move-Balanced :
      {m m' : Shared} {ws : ℕ → WorkerPc} {c : ClientPc} (n i : ℕ) {p p' : WorkerPc}
      → Below ws c
      → WorkerMove i m p m' p'
      → ws i ≡ p
      → i < n
      → Balanced n m ws
      → Balanced n m' (change i p' ws)
  unfolding total
  move-Balanced {m} {ws} n i {p' = p'} b (take_task {k} j q) e h bal = ground (
    arith,
    sum_below-change weight_of max_tasks k none m.tasks (Below.aims b i k (ap aims_at e)),
    sum_below-change (λ p. weight_of (holds p)) n i p' ws h,
  )
  move-Balanced {m} {ws} n i {p' = p'} b mv e h bal =
      ground (arith, sum_below-change (λ p. weight_of (holds p)) n i p' ws h)

  client-Balanced :
      {m m' : Shared} {ws ws' : ℕ → WorkerPc} {c c' : ClientPc} (n : ℕ)
      → Inv m ws c
      → Below ws c
      → ClientMove m ws c m' ws' c'
      → Balanced n m ws
      → Balanced n m' ws'
  unfolding total
  client-Balanced n inv b (call_add _) bal = bal
  client-Balanced {m} n inv b (store {k} {j} g) bal = ground (
    arith,
    Inv.free_slot inv k refl,
    sum_below-change weight_of max_tasks k (some j) m.tasks (Below.target b k refl),
  )
  client-Balanced {ws} n inv b broadcast bal = omega (
    arith,
    bal,
    sum_below-cong (λ p. weight_of (holds p)) n (λ i. wake_up (ws i)) ws (λ i. ground arith),
  )
  client-Balanced n inv b mv bal = bal

  -- In a reachable state of a pool of `n` workers, the jobs added are the jobs pending in the array,
  -- the jobs that a worker has taken and not executed, and the jobs executed, whatever each job
  -- weighs: none is lost and none is executed twice.
  pub jobs_conserved :
      {n : ℕ} {s : State}
      → Reach n s
      → total s.mem.added ≡ pending s.mem + in_hand n s.workers + total s.mem.executed
  unfolding total
  jobs_conserved {n} start = ground (
    arith,
    sum_below-zero weight_of max_tasks (λ _. none) (λ i. refl),
    sum_below-zero (λ p. weight_of (holds p)) n (λ _. at_top) (λ i. refl),
  )
  jobs_conserved {n} (next r (by_worker i h mv)) =
      move-Balanced n i (Reach-Below r) mv refl h (jobs_conserved r)
  jobs_conserved {n} (next r (by_client mv)) =
      client-Balanced n (Reach-Inv r) (Reach-Below r) mv (jobs_conserved r)
