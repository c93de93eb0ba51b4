-- ===== src/Adio/Epoll.antt =====
-- adio/epoll.c: the state machine over `epoll`, with at most 20 rounds. The program's messages are
-- left out, and so is `data.fd`, which `data.ptr` overwrites in the same union.
pub mod Laws
use mathlib.Core.Bool.{not}
use apue_pratice.Prelude.{
  ℕ, zero, suc, ◌+◌, ◌-◌, ◌*◌, ◌/◌, ◌%◌, ◌^◌, ◌≤◌, ◌<◌, ◌≡◌, refl, sym, ap, ◌∙◌, ◌≢◌, ◌↔◌, ◌⊎◌, inl,
  inr, Bool, true, false, ◌&&◌, ◌||◌, Option, none, some, List, [], ◌∷◌, ◌++◌, map, arith, ltb, leb,
  ◌==◌, if◌then◌else◌, Bool-cases, Option-cases, length, get_elem?, set, length-set,
  get_elem?-set_self, get_elem?-set_ne, length-append, take, drop, replicate, length-replicate,
  length-map, take-append-drop, length-take, length-drop,
}
use apue_pratice.Prelude.Int.{
  ℤ, pos, negsuc, pos_part, neg_part, ◌+ℤ◌, ◌-ℤ◌, ◌≤ℤ◌, leb_ℤ, ltb_ℤ, eqb_ℤ, int_laws, eq_of_parts,
}
use apue_pratice.Prelude.Outcome.{Outcome, done, fault, blocked, ◌>>=◌, >>=-eq-done}
use apue_pratice.Prelude.CInt.{
  fits, checked, add_int, sub_int, min_int, int_min, int_max, add_int-done, sub_int-done,
  fits_of_le, add_int-eq, sub_int-eq,
}
use apue_pratice.Adio.Pipe.{
  buf_size, PipeState, state_read, state_write, state_err, state_eof, Pipe, pipe_init, Transfer,
  failed, moved, read_size, after_read, Written, outside, refused, wrote, write_size, after_write,
  settled, finished, Exit, Files, opened, open_all, bad_usage, minus,
}
use apue_pratice.Adio.Select.{advance_off}

-- What is passed to `epoll_ctl` with EPOLLERR, and the pipeline that the event points at.
pub data EpollInterest : Type 0 where
  epollin : EpollInterest
  epollout : EpollInterest

pub record Registration : Type 0 where
  pub fd : ℕ
  pub interest : EpollInterest
  pub target : ℕ

-- The loop that registers the descriptors, from pipeline `i` on.
unfoldable pub registrations : ℕ → List Pipe → List Registration
registrations i [] = []
registrations i (p ∷ ps) =
    let rest = registrations (i + 1) ps in
    elim p.state [
      | state_read ↦ record { fd = p.src; interest = epollin; target = i } ∷ rest
      | state_write ↦ record { fd = p.dst; interest = epollout; target = i } ∷ rest
      | state_err ↦ rest
      | state_eof ↦ rest
    ]

-- One entry of `evs`: the pipeline behind `data.ptr`, the bits of `events` that the program reads,
-- and the answer to the transfer that follows.
pub record Event : Type 0 where
  pub target : ℕ
  pub has_in : Bool
  pub has_err : Bool
  pub has_hup : Bool
  pub transfer : Transfer

-- What comes of the calls of `epoll` in one `pipe_push`.
pub data Polling : Type 0 where
  create_error : ℕ → Polling
  ctl_error : Polling
  wait_error : ℕ → Polling
  never_ready : Polling
  events_ready : List Event → Polling

-- `pipe_push` returned, or the program exited.
pub data Pushed : Type 0 where
  returned : ℤ → List Pipe → Pushed
  exited : ℕ → List Pipe → Pushed

abbrev pub epoll_read : Transfer → Pipe → Pipe
epoll_read failed p = p
epoll_read (moved k) p =
    let sz = read_size k p.input in
    if sz == 0
    then record p { state = state_eof }
    else record (after_read sz p) { state = state_write; off = pos 0; len = pos sz }

abbrev pub epoll_write : Written → Pipe → Outcome Pipe
epoll_write outside p = fault
epoll_write refused p = done p
epoll_write (wrote n) p = done (advance_off (pos n) (after_write n p))

-- The `switch` of `pipe_push`. The bit that is tested before a write is EPOLLIN.
unfoldable pub epoll_switch : PipeState → Event → Pipe → Outcome Pipe
unfolding ◌+ℤ◌
epoll_switch state_read e p =
    if e.has_err || e.has_hup
    then done (record p { state = state_err })
    else if e.has_in
    then done (epoll_read e.transfer p)
    else done p
epoll_switch state_write e p =
    if e.has_err || e.has_hup
    then done (record p { state = state_err })
    else if e.has_in
    then epoll_write (write_size e.transfer p.len) p
    else done p
epoll_switch state_err e p = done p
epoll_switch state_eof e p = done p

-- The loop over the events.
unfoldable pub epoll_events : List Event → List Pipe → Outcome (List Pipe)
epoll_events [] ps = done ps
epoll_events (e ∷ es) ps = elim (get_elem? ps e.target) [
  | none ↦ fault
  | some p ↦ epoll_switch p.state e p >>= λ (p' : Pipe). epoll_events es (set ps e.target p')
]

-- What follows once the descriptors are registered, and where it stops before; the first argument
-- says whether `malloc` finds memory for the indices, which are written unchecked.
unfoldable pub push_on : Bool → Polling → List Pipe → Outcome Pushed
unfolding epoll_events
push_on memory (create_error e) ps = done (returned (minus e) ps)
push_on false polling (p ∷ ps) = fault
push_on memory ctl_error ps = done (exited 1 ps)
push_on memory (wait_error e) ps = done (returned (minus e) ps)
push_on memory never_ready ps = blocked
push_on memory (events_ready es) ps =
    epoll_events es ps >>= λ (ps' : List Pipe). done (returned (pos 0) ps')

-- `pipe_push`, over a kernel that answers to what was registered.
unfoldable pub epoll_push : Bool → (List Registration → Polling) → List Pipe → Outcome Pushed
unfolding push_on registrations
epoll_push memory kernel ps = push_on memory (kernel (registrations 0 ps)) ps

-- The copying loop of `main`.
unfoldable pub epoll_loop :
    ℕ → List (Bool × (List Registration → Polling)) → List Pipe → Outcome Exit
epoll_loop zero rounds ps = done (record { status = 0; pipes = ps })
epoll_loop (suc j) [] ps = blocked
epoll_loop (suc j) ((memory, kernel) ∷ rounds) ps = epoll_push memory kernel ps >>= λ (r : Pushed).
    elim r [
      | exited status qs ↦ done (record { status = status; pipes = qs })
      | returned err qs ↦
          let rest = epoll_loop j rounds qs in
          if eqb_ℤ err (pos 0)
          then (if finished qs then done (record { status = 0; pipes = qs }) else rest)
          else done (record { status = 1; pipes = qs })
    ]

-- `main`; the second argument says whether `malloc` finds memory for the pipelines.
unfoldable pub epoll_main :
    ℕ → Bool → List Files → List (Bool × (List Registration → Polling)) → Outcome Exit
unfolding epoll_loop
epoll_main argc memory files rounds =
    if bad_usage argc || not memory
    then done (record { status = 1; pipes = [] })
    else elim (open_all (take ((argc - 1) / 2) files)) [
      | none ↦ done (record { status = 1; pipes = [] })
      | some ps ↦ epoll_loop 20 rounds ps
    ]
