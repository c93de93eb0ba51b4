-- ===== src/Adio/Poll.antt =====
-- adio/poll.c: the state machine of adio/select.c over `poll`, with at most 20 rounds. The program's
-- messages are left out.
pub mod Laws
pub mod Same
use mathlib.Core.Bool.{not}
use apue_pratice.Prelude.{
  ℕ, zero, suc, ◌+◌, ◌-◌, ◌*◌, ◌/◌, ◌%◌, ◌^◌, ◌≤◌, ◌<◌, ◌≡◌, refl, sym, ap, ◌∙◌, ◌≢◌, ◌↔◌, ◌⊎◌, inl,
  inr, Bool, true, false, ◌&&◌, ◌||◌, Option, none, some, List, [], ◌∷◌, ◌++◌, map, arith, ltb, leb,
  ◌==◌, if◌then◌else◌, Bool-cases, Option-cases, length, get_elem?, set, length-set,
  get_elem?-set_self, get_elem?-set_ne, length-append, take, drop, replicate, length-replicate,
  length-map, take-append-drop, length-take, length-drop,
}
use apue_pratice.Prelude.Int.{
  ℤ, pos, negsuc, pos_part, neg_part, ◌+ℤ◌, ◌-ℤ◌, ◌≤ℤ◌, leb_ℤ, ltb_ℤ, eqb_ℤ, int_laws, eq_of_parts,
}
use apue_pratice.Prelude.Outcome.{Outcome, done, fault, blocked, ◌>>=◌, >>=-eq-done}
use apue_pratice.Prelude.CInt.{
  fits, checked, add_int, sub_int, min_int, int_min, int_max, add_int-done, sub_int-done,
  fits_of_le, add_int-eq, sub_int-eq,
}
use apue_pratice.Adio.Pipe.{
  buf_size, PipeState, state_read, state_write, state_err, state_eof, Pipe, pipe_init, Transfer,
  failed, moved, read_size, after_read, Written, outside, refused, wrote, write_size, after_write,
  settled, finished, Exit, Files, opened, open_all, bad_usage, minus,
}

-- `events` of a `struct pollfd`: the array comes from `malloc`, and of a descriptor that its pipeline
-- does not wait for the field is never written.
pub data Interest : Type 0 where
  unwritten : Interest
  pollin : Interest
  pollout : Interest

pub record PollFd : Type 0 where
  pub fd : ℕ
  pub events : Interest

abbrev pub wants_in : PipeState → Interest
wants_in state_read = pollin
wants_in state_write = unwritten
wants_in state_err = unwritten
wants_in state_eof = unwritten

abbrev pub wants_out : PipeState → Interest
wants_out state_read = unwritten
wants_out state_write = pollout
wants_out state_err = unwritten
wants_out state_eof = unwritten

-- The loop that fills `polls`: entry `2 i` is the source of pipeline `i`, entry `2 i + 1` its
-- destination.
unfoldable pub poll_fds : List Pipe → List PollFd
poll_fds [] = []
poll_fds (p ∷ ps) =
    record { fd = p.src; events = wants_in p.state }
    ∷ record { fd = p.dst; events = wants_out p.state }
    ∷ poll_fds ps

-- The bits of `revents` that the program reads.
pub record Revents : Type 0 where
  pub has_in : Bool
  pub has_out : Bool
  pub has_err : Bool

-- The outcome of one call of `poll`: the `revents` of each entry, and the answers to the transfers.
pub data Polled : Type 0 where
  poll_interrupted : Polled
  poll_error : ℕ → Polled
  poll_ready : (ℕ → Revents) → (ℕ → Transfer) → Polled

-- The `read` of the state STATE_READ and what follows it: a length of -1 is taken like any other.
unfoldable pub poll_read : Transfer → Pipe → Pipe
poll_read failed p = record p { state = state_write; off = pos 0; len = negsuc 0 }
poll_read (moved k) p =
    let sz = read_size k p.input in
    let q = after_read sz p in
    if sz == 0
    then record q { state = state_eof }
    else record q { state = state_write; off = pos 0; len = pos sz }

-- `p[i].off += sz`, and the test behind it.
abbrev pub poll_moved : ℤ → Pipe → Pipe
poll_moved sz p =
    let q = record p { off = p.off +ℤ sz } in
    record q { state = if eqb_ℤ q.off q.len then state_read else q.state }

-- The `write` of the state STATE_WRITE, from the head of the buffer, and what follows it.
unfoldable pub poll_write : Written → Pipe → Outcome Pipe
unfolding ◌+ℤ◌
poll_write outside p = fault
poll_write refused p = done (poll_moved (negsuc 0) p)
poll_write (wrote n) p = done (poll_moved (pos n) (after_write n p))

-- One round of the `switch` in `pipe_push`, for pipeline `i`.
unfoldable pub poll_switch : PipeState → ℕ → (ℕ → Revents) → Transfer → Pipe → Outcome Pipe
unfolding poll_read poll_write
poll_switch state_read i re t p =
    if (re (i * 2)).has_err
    then done (record p { state = state_err })
    else if (re (i * 2)).has_in
    then done (poll_read t p)
    else done p
poll_switch state_write i re t p =
    if (re (i * 2 + 1)).has_err
    then done (record p { state = state_err })
    else if (re (i * 2 + 1)).has_out
    then poll_write (write_size t p.len) p
    else done p
poll_switch state_err i re t p = done p
poll_switch state_eof i re t p = done p

unfoldable pub poll_advance : ℕ → (ℕ → Revents) → (ℕ → Transfer) → List Pipe → Outcome (List Pipe)
poll_advance i re io [] = done []
poll_advance i re io (p ∷ ps) = do
  p' ← poll_switch p.state i re (io i) p
  ps' ← poll_advance (i + 1) re io ps
  done (p' ∷ ps')

-- The wait and the second loop of `pipe_push`.
unfoldable pub poll_wait : List Polled → List Pipe → Outcome (ℤ × List Pipe)
unfolding poll_advance
poll_wait [] ps = blocked
poll_wait (poll_interrupted ∷ calls) ps = poll_wait calls ps
poll_wait (poll_error e ∷ calls) ps = done (minus e, ps)
poll_wait (poll_ready re io ∷ calls) ps = do ps' ← poll_advance 0 re io ps; done (pos 0, ps')

-- `pipe_push`; the flag says whether there is room for two entries of each pipeline where `malloc` points,
-- which is asked for one of each. Without that room, as where `malloc` fails, the loop writes outside.
unfoldable pub poll_push : Bool → List Polled → List Pipe → Outcome (ℤ × List Pipe)
unfolding poll_wait
poll_push memory calls [] = poll_wait calls []
poll_push memory calls (p ∷ ps) = if memory then poll_wait calls (p ∷ ps) else fault

-- The copying loop of `main`: `limits - j` rounds are left.
unfoldable pub poll_loop : ℕ → List (Bool × List Polled) → List Pipe → Outcome Exit
poll_loop zero rounds ps = done (record { status = 0; pipes = ps })
poll_loop (suc j) [] ps = blocked
poll_loop (suc j) ((memory, calls) ∷ rounds) ps =
    poll_push memory calls ps >>= λ (r : ℤ × List Pipe).
    let rest = poll_loop j rounds r.1 in
    if eqb_ℤ r.0 (pos 0)
    then (if finished r.1 then done (record { status = 0; pipes = r.1 }) else rest)
    else done (record { status = 1; pipes = r.1 })

-- `limits`
abbrev pub limits : ℕ
limits = 20

-- `main`; the second argument says whether `malloc` finds memory for the pipelines.
unfoldable pub poll_main : ℕ → Bool → List Files → List (Bool × List Polled) → Outcome Exit
unfolding poll_loop
poll_main argc memory files rounds =
    if bad_usage argc || not memory
    then done (record { status = 1; pipes = [] })
    else elim (open_all (take ((argc - 1) / 2) files)) [
      | none ↦ done (record { status = 1; pipes = [] })
      | some ps ↦ poll_loop limits rounds ps
    ]
