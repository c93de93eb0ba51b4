-- ===== src/Counter/Model.antt =====
-- The common shape of thread/mutex.c, ipc/sem_arr.c and adio/flock.c: `main` starts `n` threads, each
-- thread takes the lock, loads the counter, stores it with one added and gives the lock back, and
-- `main` waits for every thread and prints the counter. Every step is one access to shared state. No
-- call of the system fails.
use apue_pratice.Prelude.{ℕ, suc, ◌<◌, ◌≡◌}
use apue_pratice.Thread.Family.{change}

-- A lock: its states, how it is taken and given back, and when it is free or taken.
pub record Lock : Type 1 where
  pub LockState : Type 0
  pub at_first : LockState
  pub Takes : LockState → LockState → Type 0
  pub Gives : LockState → LockState → Type 0
  pub IsFree : LockState → Type 0
  pub IsTaken : LockState → Type 0
  pub at_first-IsFree : IsFree at_first
  pub takes_free : (s t : LockState) → IsFree s → Takes s t → IsTaken t
  pub takes_taken : (s t : LockState) → IsTaken s → Takes s t → ⊥
  pub gives_taken : (s t : LockState) → IsTaken s → Gives s t → IsFree t
  pub can_take : (s : LockState) → IsFree s → (t : LockState) × Takes s t
  pub can_give : (s : LockState) → IsTaken s → (t : LockState) × Gives s t

-- A counter in shared memory: what a thread loads, what it stores then, and the number that the memory
-- stands for.
pub record Cell : Type 1 where
  pub Memory : Type 0
  pub Loaded : Type 0
  pub empty : Memory
  pub load : Memory → Loaded
  pub store : Loaded → Memory → Memory
  pub Holds : ℕ → Memory → Type 0
  pub holds_empty : Holds 0 empty
  pub holds_store : (k : ℕ) (m : Memory) → Holds k m → Holds (suc k) (store (load m) m)

-- Where a thread stands.
pub data Pc (L : Type 0) : Type 0 where
  unborn : Pc L  -- not created
  outside : Pc L  -- before it takes the lock
  entered : Pc L  -- before it loads the counter
  loaded : L → Pc L  -- before it stores the counter
  stored : Pc L  -- before it gives the lock back
  left : Pc L

-- Where `main` stands.
pub data MainPc (M : Type 0) : Type 0 where
  creating : ℕ → MainPc M
  joining : ℕ → MainPc M
  printed : M → MainPc M

module _ (lock : Lock) (cell : Cell) where
  open lock use {LockState, at_first, Takes, Gives}
  open cell use {Memory, Loaded, empty, load, store}

  pub record Threads : Type 0 where
    pub held : LockState
    pub mem : Memory
    pub pcs : ℕ → Pc Loaded
    pub main : MainPc Memory

  -- One step of thread `i`.
  pub data Move (k : LockState) (m : Memory)
      : Pc Loaded → LockState → Memory → Pc Loaded → Type 0 where
    take_lock : {k' : LockState} → Takes k k' → Move k m outside k' m entered
    load_it : Move k m entered k m (loaded (load m))
    store_it : {l : Loaded} → Move k m (loaded l) k (store l m) stored
    give_lock : {k' : LockState} → Gives k k' → Move k m stored k' m left

  -- One step of a program with `n` threads.
  pub data Step (n : ℕ) (s : Threads) : Threads → Type 0 where
    by_thread :
        (i : ℕ) {k : LockState} {m : Memory} {p : Pc Loaded}
        → Move s.held s.mem (s.pcs i) k m p
        → Step n s (record { held = k; mem = m; pcs = change i p s.pcs; main = s.main })
    create :
        {i : ℕ}
        → s.main ≡ creating i
        → i < n
        → Step n s (record s { pcs = change i outside s.pcs; main = creating (suc i) })
    created_all : s.main ≡ creating n → Step n s (record s { main = joining 0 })
    join :
        {i : ℕ}
        → s.main ≡ joining i
        → i < n
        → s.pcs i ≡ left
        → Step n s (record s { main = joining (suc i) })
    print_it : s.main ≡ joining n → Step n s (record s { main = printed s.mem })

  abbrev pub at_start : Threads
  at_start = record { held = at_first; mem = empty; pcs = λ _. unborn; main = creating 0 }

  pub data Reach (n : ℕ) : Threads → Type 0 where
    start : Reach n at_start
    next : {s t : Threads} → Reach n s → Step n s t → Reach n t
