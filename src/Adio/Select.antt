-- ===== src/Adio/Select.antt =====
-- adio/select.c: several files copied at once by a state machine over `select`. The program's
-- messages are left out. Offsets are of type `ssize_t`, and no run reaches its bounds.
pub mod Copies
pub mod Stuck
pub mod Sets
pub mod Progress
use mathlib.Core.Bool.{not}
use apue_pratice.Prelude.{
  ℕ, ◌+◌, ◌-◌, ◌/◌, Bool, false, ◌&&◌, ◌||◌, none, some, List, [], ◌∷◌, ltb, ◌==◌, if◌then◌else◌,
  take,
}
use apue_pratice.Prelude.Int.{ℤ, pos, negsuc, ◌+ℤ◌, eqb_ℤ}
use apue_pratice.Prelude.Outcome.{Outcome, done, fault, blocked, ◌>>=◌}
use apue_pratice.Adio.Pipe.{
  PipeState, state_read, state_write, state_err, state_eof, Pipe, Transfer, failed, moved,
  read_size, after_read, Written, outside, refused, wrote, write_size, after_write, finished, Exit,
  Files, open_all, bad_usage, minus,
}

-- The three sets that are passed to `select`, with `nfds`.
pub record FdSets : Type 0 where
  pub nfds : ℕ
  pub reads : List ℕ
  pub writes : List ℕ
  pub excepts : List ℕ

-- `FD_ISSET`
unfoldable pub contains : List ℕ → ℕ → Bool
contains [] fd = false
contains (x ∷ xs) fd = x == fd || contains xs fd

abbrev pub bigger : ℕ → ℕ → ℕ
bigger fd n = if ltb n fd then fd else n

-- One round of the first loop of `pipe_push`.
abbrev pub register_fds : Pipe → FdSets → FdSets
register_fds p s =
    let s₁ = record s { nfds = bigger p.dst (bigger p.src s.nfds) } in
    elim p.state [
      | state_read ↦ record s₁ { reads = p.src ∷ s.reads; excepts = p.src ∷ s.excepts }
      | state_write ↦ record s₁ { writes = p.dst ∷ s.writes; excepts = p.dst ∷ s.excepts }
      | state_err ↦ s₁
      | state_eof ↦ s₁
    ]

unfoldable pub fd_sets : List Pipe → FdSets → FdSets
fd_sets [] s = s
fd_sets (p ∷ ps) s = fd_sets ps (register_fds p s)

abbrev pub no_fds : FdSets
no_fds = record { nfds = 0; reads = []; writes = []; excepts = [] }

-- What the kernel finds of a descriptor.
pub record Found : Type 0 where
  pub readable : ℕ → Bool
  pub writable : ℕ → Bool
  pub exceptional : ℕ → Bool

-- The outcome of one call of `select`, with the answers to the transfers of the pipelines.
pub data Selected : Type 0 where
  interrupted : Selected
  error : ℕ → Selected
  ready : Found → (ℕ → Transfer) → Selected

-- A failed `read` is not told from a successful one: its -1 becomes the length.
unfoldable pub take_read : Transfer → Pipe → Pipe
take_read failed p = record p { state = state_write; off = pos 0; len = negsuc 0 }
take_read (moved k) p =
    let sz = read_size k p.input in
    if sz == 0
    then record p { state = state_eof }
    else record (after_read sz p) { state = state_write; off = pos 0; len = pos sz }

abbrev pub advance_off : ℤ → Pipe → Pipe
advance_off sz p =
    let off' = p.off +ℤ sz in
    if eqb_ℤ off' p.len
    then record p { off = off'; state = state_read }
    else record p { off = off' }

-- The write starts at the head of the buffer and asks for all of `len`, whatever `off` is.
unfoldable pub take_write : Written → Pipe → Outcome Pipe
unfolding ◌+ℤ◌
take_write outside p = fault
take_write refused p = done (advance_off (negsuc 0) p)
take_write (wrote n) p = done (advance_off (pos n) (after_write n p))

-- One round of the `switch` in `pipe_push`, by the state that it is on.
unfoldable pub switch_on : PipeState → FdSets → Found → Transfer → Pipe → Outcome Pipe
unfolding contains take_read take_write
switch_on state_read s f t p =
    if contains s.excepts p.src && f.exceptional p.src
    then done (record p { state = state_err })
    else if contains s.reads p.src && f.readable p.src
    then done (take_read t p)
    else done p
switch_on state_write s f t p =
    if contains s.excepts p.dst && f.exceptional p.dst
    then done (record p { state = state_err })
    else if contains s.writes p.dst && f.writable p.dst
    then take_write (write_size t p.len) p
    else done p
switch_on state_err s f t p = done p
switch_on state_eof s f t p = done p

-- The second loop of `pipe_push`, from pipeline `i` on.
unfoldable pub advance_all : ℕ → FdSets → Found → (ℕ → Transfer) → List Pipe → Outcome (List Pipe)
advance_all i s f io [] = done []
advance_all i s f io (p ∷ ps) = do
  p' ← switch_on p.state s f (io i) p
  ps' ← advance_all (i + 1) s f io ps
  done (p' ∷ ps')

-- `pipe_push`, over the outcomes of its calls of `select`.
unfoldable pub pipe_push : List Selected → List Pipe → Outcome (ℤ × List Pipe)
unfolding advance_all
pipe_push [] ps = blocked
pipe_push (interrupted ∷ calls) ps = pipe_push calls ps
pipe_push (error e ∷ calls) ps = done (minus e, ps)
pipe_push (ready f io ∷ calls) ps = do
  ps' ← advance_all 0 (fd_sets ps no_fds) f io ps
  done (pos 0, ps')

-- The copying loop of `main`, over the rounds that the environment allows.
unfoldable pub copy_loop : List (List Selected) → List Pipe → Outcome Exit
copy_loop [] ps = blocked
copy_loop (calls ∷ rounds) ps = pipe_push calls ps >>= λ (r : ℤ × List Pipe).
    let rest = copy_loop rounds r.1 in
    if eqb_ℤ r.0 (pos 0)
    then (if finished r.1 then done (record { status = 0; pipes = r.1 }) else rest)
    else done (record { status = 1; pipes = r.1 })

-- `main`; the second argument says whether `malloc` finds memory.
unfoldable pub select_main : ℕ → Bool → List Files → List (List Selected) → Outcome Exit
unfolding copy_loop
select_main argc memory files rounds =
    if bad_usage argc || not memory
    then done (record { status = 1; pipes = [] })
    else elim (open_all (take ((argc - 1) / 2) files)) [
      | none ↦ done (record { status = 1; pipes = [] })
      | some ps ↦ copy_loop rounds ps
    ]
