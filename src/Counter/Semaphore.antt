-- ===== src/Counter/Semaphore.antt =====
-- ipc/sem_arr.c: a System V semaphore with the value 1 around `count++` in 32 threads. P waits for a
-- positive value and takes one from it, V adds one. A `semop` that was interrupted is tried again and
-- leaves the value, so that only the successful one is a step.
use apue_pratice.Prelude.{ℕ, ◌≡◌, refl, ap, Bool, true, false, arith, if◌then◌else◌}
use apue_pratice.Prelude.Int.{ℤ, pos, negsuc, pos_part, neg_part, ◌+ℤ◌}
use apue_pratice.Counter.Mutex.{count}
use apue_pratice.Counter.Model.{Lock, Pc, printed, Threads, Move, Step, Reach}
use apue_pratice.Counter.Invariant.{inside, Inv}
use apue_pratice.Counter.Kept.{Reach-Inv, printed_total, inside_taken, nobody_free}

abbrev pub sem_threads : ℕ
sem_threads = 32

-- The change of the value that `p_v` asks for.
abbrev pub sem_op : Bool → ℤ
sem_op p = if p then negsuc 0 else pos 1

-- A `semop` that succeeds: the value does not fall below 0.
abbrev pub Pv : Bool → ℕ → ℕ → Type 0
Pv p v v' = pos v' ≡ pos v +ℤ sem_op p

abbrev pub sem_value : ℕ
sem_value = 1

pub p_one : (v v' : ℕ) → v ≡ 1 → Pv true v v' → v' ≡ 0
unfolding ◌+ℤ◌
p_one v v' f h = ground (arith, ap pos_part h)

pub p_zero : (v v' : ℕ) → v ≡ 0 → Pv true v v' → ⊥
unfolding ◌+ℤ◌
p_zero v v' f h = ground (arith, ap neg_part h)

pub v_zero : (v v' : ℕ) → v ≡ 0 → Pv false v v' → v' ≡ 1
unfolding ◌+ℤ◌
v_zero v v' f h = ground (arith, ap pos_part h)

pub p_possible : (v : ℕ) → v ≡ 1 → Pv true v 0
unfolding ◌+ℤ◌
p_possible v f = ground arith

pub v_possible : (v : ℕ) → v ≡ 0 → Pv false v 1
unfolding ◌+ℤ◌
v_possible v f = ground arith

abbrev pub semaphore : Lock
semaphore = record {
  LockState = ℕ;
  at_first = sem_value;
  Takes = Pv true;
  Gives = Pv false;
  IsFree = λ v. v ≡ 1;
  IsTaken = λ v. v ≡ 0;
  at_first-IsFree = refl;
  takes_free = p_one;
  takes_taken = p_zero;
  gives_taken = v_zero;
  can_take = λ v f. (0, p_possible v f);
  can_give = λ v f. (1, v_possible v f);
}

-- `add`, and the whole program. Its counter is that of thread/mutex.c: `count` of `Counter/Mutex.antt`.
abbrev pub Add : ℕ → ℕ → Pc ℕ → ℕ → ℕ → Pc ℕ → Type 0
Add = Move semaphore count

abbrev pub SemMain : Threads semaphore count → Threads semaphore count → Type 0
SemMain = Step semaphore count sem_threads

-- Whatever the order in which the threads of ipc/sem_arr.c run, the program prints 32.
pub semaphore_prints :
    {s : Threads semaphore count} {m : ℕ}
    → Reach semaphore count sem_threads s
    → s.main ≡ printed m
    → m ≡ 32
semaphore_prints r q = printed_total semaphore count r q

-- The value of the semaphore of ipc/sem_arr.c is 1 when nobody is between the two calls of `p_v`, and 0
-- when a thread is; and two threads never are there together.
pub semaphore_excludes :
    {n : ℕ} {s : Threads semaphore count}
    → Reach semaphore count n s
    → ((i j : ℕ) → inside (s.pcs i) ≡ true → inside (s.pcs j) ≡ true → i ≡ j)
      × ((i : ℕ) → inside (s.pcs i) ≡ true → s.held ≡ 0)
      × (((i : ℕ) → inside (s.pcs i) ≡ false) → s.held ≡ 1)
semaphore_excludes {n} {s} r =
    let (o, inv) = Reach-Inv semaphore count r in
    (
      λ i j hi hj. ground (arith, Inv.insider inv i hi, Inv.insider inv j hj),
      λ i q. inside_taken semaphore count i o inv q,
      nobody_free semaphore count o inv,
    )
