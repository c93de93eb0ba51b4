-- ===== src/Signal/Timer.antt =====
-- The timer library of signal/anytimer.c and signal/anytimer.h: its state and every function. A job
-- is a function of the program: what it does is the program's, and it is taken not to call the
-- library again. Its call is recorded, with the position that it came from.
pub mod Ticks
pub mod Fires
pub mod Table
mod Tests
use apue_pratice.Prelude.{
  ℕ, zero, suc, ◌+◌, ◌-◌, Bool, true, false, Option, none, some, List, [], ◌∷◌, ◌++◌, if◌then◌else◌,
  set, replicate,
}
use apue_pratice.Prelude.Int.{ℤ, pos, negsuc, eqb_ℤ}
use apue_pratice.Prelude.Outcome.{Outcome, done, fault, blocked, ◌>>=◌}
use apue_pratice.Prelude.CInt.{sub_int}
use apue_pratice.Slots.{Slot, null, live, dangling, slot, put, first_null}

-- MAX_TASKS
abbrev pub max_tasks : ℕ
max_tasks = 1024

-- `struct task`
pub record Task : Type 0 where
  pub sec : ℤ
  pub func : ℕ
  pub arg : ℕ
  pub pos_field : ℤ

-- `t->func(t->arg)`, made for the task at `position`.
pub record Call : Type 0 where
  pub position : ℕ
  pub called : ℕ
  pub passed : ℕ

-- The static variables, the seconds to the next alarm, whether SIGALRM runs `handle`, the blocks
-- allocated and not freed, and the calls made so far, in order.
pub record Timer : Type 0 where
  pub tasks : List (Slot Task)
  pub inited : Bool
  pub handled : Bool
  pub alarm : ℕ
  pub blocks : ℕ
  pub calls : List Call

abbrev pub at_start : Timer
at_start = record {
  tasks = replicate max_tasks null;
  inited = false;
  handled = false;
  alarm = 0;
  blocks = 0;
  calls = [];
}

-- What the loop of `handle` has done from one index on.
pub record Ticked : Type 0 where
  pub left : List (Slot Task)
  pub made : List Call
  pub freed : ℕ

abbrev pub keep : Slot Task → Ticked → Ticked
keep x r = record r { left = x ∷ r.left }

-- `t->func(t->arg); free(t); tasks[i] = NULL;`
abbrev pub fire : ℕ → Task → Ticked → Ticked
fire i t r = record {
  left = null ∷ r.left;
  made = record { position = i; called = t.func; passed = t.arg } ∷ r.made;
  freed = suc r.freed;
}

-- The loop of `handle`, from index `i` on.
pub tick : ℕ → List (Slot Task) → Outcome Ticked
tick i [] = done (record { left = []; made = []; freed = 0 })
tick i (null ∷ xs) = do r ← tick (i + 1) xs; done (keep null r)
tick i (live t ∷ xs) = do
  sec' ← sub_int t.sec (pos 1)
  r ← tick (i + 1) xs
  done (if eqb_ℤ sec' (pos 0) then fire i t r else keep (live (record t { sec = sec' })) r)
tick i (dangling ∷ xs) = fault

-- The SIGALRM handler.
pub handle : Timer → Outcome Timer
handle s = do
  r ← tick 0 s.tasks
  done (record s {
    tasks = r.left;
    calls = s.calls ++ r.made;
    blocks = s.blocks - r.freed;
    alarm = 1;
  })

pub getf_free_pos : List (Slot Task) → ℤ
getf_free_pos tasks = first_null 0 tasks

-- `if (!inited) …` at the head of `at_add_job`.
pub set_up : Timer → Timer
set_up s = if s.inited then s else record s { inited = true; handled = true; alarm = 1 }

-- After `getf_free_pos`; the memory that `malloc` did not find is written all the same.
pub add_at : ℤ → Bool → ℤ → ℕ → ℕ → Timer → Outcome (ℤ × Timer)
add_at (negsuc n) memory sec job arg s = done (negsuc n, s)
add_at (pos i) memory sec job arg s =
    if memory
    then done (
      pos i,
      record s {
        tasks =
            set s.tasks i (live (record { sec = sec; func = job; arg = arg; pos_field = pos i }));
        blocks = s.blocks + 1;
      },
    )
    else fault

-- The second argument says whether `malloc` finds memory.
pub at_add_job : Bool → ℤ → ℕ → ℕ → Timer → Outcome (ℤ × Timer)
unfolding add_at
at_add_job memory sec job arg s =
    let s₁ = set_up s in add_at (getf_free_pos s₁.tasks) memory sec job arg s₁

-- On a task that is there the function ends without a `return`: `none` is that missing value.
pub at_cancel_job : ℤ → Timer → Outcome (Option ℤ × Timer)
at_cancel_job id s = do
  t ← slot s.tasks id
  elim t [
    | null ↦ done (some (pos 0), s)
    | live _ ↦ done (none, record s { tasks = put s.tasks id null; blocks = s.blocks - 1 })
    | dangling ↦ fault
  ]

-- The loop of `at_wait`, in which the environment delivers at most the given number of alarms.
pub at_wait : ℕ → ℤ → Timer → Outcome Timer
at_wait zero id s = do
  t ← slot s.tasks id
  elim t [ null ↦ done s | live _ ↦ blocked | dangling ↦ blocked ]
at_wait (suc alarms) id s = do
  t ← slot s.tasks id
  let again = handle s >>= at_wait alarms id
  elim t [ null ↦ done s | live _ ↦ again | dangling ↦ again ]
