-- ===== src/Signal/Tbf.antt =====
-- The token bucket library of signal/mytbf.c: its state and every function.
pub mod Table
pub mod Steps
pub mod Calls
pub mod Alarms
pub mod Buckets
pub mod Reuse
mod Tests
use apue_pratice.Prelude.{
  ℕ, zero, suc, ◌+◌, ◌-◌, Bool, true, false, List, [], ◌∷◌, if◌then◌else◌, set, replicate,
}
use apue_pratice.Prelude.Int.{ℤ, pos, negsuc, eqb_ℤ}
use apue_pratice.Prelude.Outcome.{Outcome, done, fault, blocked, ◌>>=◌}
use apue_pratice.Prelude.CInt.{add_int, sub_int, min_int}
use apue_pratice.Slots.{Slot, null, live, dangling, slot, deref, put, first_null, count_live}

-- MAX_TBF
abbrev pub max_tbf : ℕ
max_tbf = 1024

-- `struct mytbf_st`
pub record Tbf : Type 0 where
  pub cps : ℤ
  pub burst : ℤ
  pub token : ℤ
  pub pos_field : ℤ

-- What SIGALRM does: the default action, which is the NULL pointer, the library's `handle`, or a
-- function of the program.
pub data Disposition : Type 0 where
  default_action : Disposition
  library_handler : Disposition
  user_handler : ℕ → Disposition

-- The static variables, with what the library changes in the process: the action of SIGALRM, the
-- seconds to the next alarm, and the blocks that it has allocated and not freed.
pub record Library : Type 0 where
  pub jobs : List (Slot Tbf)
  pub inited : Bool
  pub func : Disposition
  pub action : Disposition
  pub alarm : ℕ
  pub blocks : ℕ

-- Before the first call.
abbrev pub at_start : Disposition → Library
at_start a = record {
  jobs = replicate max_tbf null;
  inited = false;
  func = default_action;
  action = a;
  alarm = 0;
  blocks = 0;
}

-- The loop of `handle`: every job earns `cps` tokens.
pub accrue : List (Slot Tbf) → Outcome (List (Slot Tbf))
accrue [] = done []
accrue (null ∷ xs) = do rest ← accrue xs; done (null ∷ rest)
accrue (live t ∷ xs) = do
  earned ← add_int t.token t.cps
  rest ← accrue xs
  done (live (record t { token = earned }) ∷ rest)
accrue (dangling ∷ xs) = fault

-- The SIGALRM handler.
pub handle : Library → Outcome Library
handle s = do jobs' ← accrue s.jobs; done (record s { jobs = jobs'; alarm = 1 })

pub mytbf_load : Library → Library
mytbf_load s =
    if s.inited
    then s
    else record s { inited = true; alarm = 1; func = s.action; action = library_handler }

-- `free(jobs[i])` for every slot: the pointers stay, and a block is not freed twice.
pub free_all : List (Slot Tbf) → Outcome (List (Slot Tbf))
free_all [] = done []
free_all (null ∷ xs) = do rest ← free_all xs; done (null ∷ rest)
free_all (live t ∷ xs) = do rest ← free_all xs; done (dangling ∷ rest)
free_all (dangling ∷ xs) = fault

-- `if(func != NULL) signal(SIGALRM, func)`
pub restored : Disposition → Disposition → Disposition
restored default_action action = action
restored library_handler action = library_handler
restored (user_handler h) action = user_handler h

pub mytbf_unload : Library → Outcome Library
unfolding restored
mytbf_unload s = elim s.inited [
  | false ↦ done s
  | true ↦ do
    freed ← free_all s.jobs
    done (record s {
      inited = false;
      action = restored s.func s.action;
      func = default_action;
      jobs = freed;
      blocks = s.blocks - count_live s.jobs;
    })
]

-- `get_pos`: the first free position, or -1.
pub get_pos : List (Slot Tbf) → ℤ
get_pos jobs = first_null 0 jobs

-- After `malloc` has given a block.
pub init_at : ℤ → ℤ → ℤ → Library → ℤ × Library
init_at (negsuc n) cps burst s = (negsuc 0, s)
init_at (pos i) cps burst s = (
  pos i,
  record s {
    jobs =
        set s.jobs i (live (record { cps = cps; burst = burst; token = pos 0; pos_field = pos i }));
  },
)

-- `mytbf_init`; the first argument says whether `malloc` finds memory.
pub mytbf_init : Bool → ℤ → ℤ → Library → ℤ × Library
unfolding init_at
mytbf_init memory cps burst s =
    let s₁ = mytbf_load s in
    if memory
    then init_at (get_pos s₁.jobs) cps burst (record s₁ { blocks = s₁.blocks + 1 })
    else (negsuc 0, s₁)

pub mytbf_returntoken : ℤ → ℤ → Library → Outcome (ℤ × Library)
mytbf_returntoken id token s = do
  p ← deref s.jobs id
  sum ← add_int p.token token
  let kept = min_int sum p.burst
  done (token, record s { jobs = put s.jobs id (live (record p { token = kept })) })

-- The loop `while(p->token == 0) pause();`, in which the environment delivers at most the given
-- number of alarms.
pub await : ℕ → ℤ → Library → Outcome Library
await zero id s = do p ← deref s.jobs id; if eqb_ℤ p.token (pos 0) then blocked else done s
await (suc alarms) id s = do
  p ← deref s.jobs id
  let again = handle s >>= await alarms id
  if eqb_ℤ p.token (pos 0) then again else done s

-- The part of `mytbf_fetchtoken` after the loop.
pub take_tokens : ℤ → ℤ → Library → Outcome (ℤ × Library)
take_tokens id token s = do
  p ← deref s.jobs id
  let r = min_int p.token token
  left ← sub_int p.token r
  done (r, record s { jobs = put s.jobs id (live (record p { token = left })) })

pub mytbf_fetchtoken : ℕ → ℤ → ℤ → Library → Outcome (ℤ × Library)
mytbf_fetchtoken alarms id token s = await alarms id s >>= take_tokens id token

-- After `free(p)` a slot that still holds `p` dangles; `jobs[p->pos] = NULL` clears the right one.
pub mytbf_destroy : ℤ → Library → Outcome (ℤ × Library)
mytbf_destroy id s = do
  p ← deref s.jobs id
  _ ← slot s.jobs p.pos_field
  let freed = put (put s.jobs id dangling) p.pos_field null
  done (pos 1, record s { jobs = freed; blocks = s.blocks - 1 })
