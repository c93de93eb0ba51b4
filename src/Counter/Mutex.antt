-- ===== src/Counter/Mutex.antt =====
-- thread/mutex.c: a pthread mutex around `count++` in 256 threads. The mutex is a Boolean that a thread
-- turns on only when it is off; `count` is an int as its 32 bits, which `count++` loads and stores.
use apue_pratice.Prelude.{ℕ, ◌+◌, ◌%◌, ◌≡◌, refl, Bool, true, false, arith}
use apue_pratice.Counter.Model.{Lock, Cell, Pc, printed, Threads, Move, Step, Reach}
use apue_pratice.Counter.Kept.{printed_total}

abbrev pub thread_count : ℕ
thread_count = 256

pub on_not_off : (s t : Bool) → s ≡ true → (s ≡ false) × (t ≡ true) → ⊥
on_not_off s t f h = ground (arith, h.0)

abbrev pub mutex : Lock
mutex = record {
  LockState = Bool;
  at_first = false;
  Takes = λ s t. (s ≡ false) × (t ≡ true);
  Gives = λ s t. (s ≡ true) × (t ≡ false);
  IsFree = λ s. s ≡ false;
  IsTaken = λ s. s ≡ true;
  at_first-IsFree = refl;
  takes_free = λ s t f h. h.1;
  takes_taken = on_not_off;
  gives_taken = λ s t f h. h.1;
  can_take = λ s f. (true, (f, refl));
  can_give = λ s f. (false, (f, refl));
}

-- `count`, and `count++` as a load and a store.
abbrev pub count : Cell
count = record {
  Memory = ℕ;
  Loaded = ℕ;
  empty = 0;
  load = λ m. m;
  store = λ l m. (l + 1) % 4294967296;
  Holds = λ k m. m ≡ k % 4294967296;
  holds_empty = refl;
  holds_store = λ k m h. omega (arith, h);
}

-- `routine`, and the whole program.
abbrev pub Routine : Bool → ℕ → Pc ℕ → Bool → ℕ → Pc ℕ → Type 0
Routine = Move mutex count

abbrev pub Program : Threads mutex count → Threads mutex count → Type 0
Program = Step mutex count thread_count

-- Whatever the order in which the threads of thread/mutex.c run, the program prints 256.
pub mutex_prints :
    {s : Threads mutex count} {m : ℕ}
    → Reach mutex count thread_count s
    → s.main ≡ printed m
    → m ≡ 256
mutex_prints r q = printed_total mutex count r q
