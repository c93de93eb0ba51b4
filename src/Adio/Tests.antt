-- ===== src/Adio/Tests.antt =====
-- Runs of the copying programs of adio/, and their theorems at them.
use apue_pratice.Prelude.{
  ℕ, zero, suc, ◌+◌, ◌-◌, ◌/◌, ◌≡◌, refl, ◌≢◌, ◌⊎◌, Bool, true, false, some, List, [], ◌∷◌, map,
  arith, take, replicate,
}
use apue_pratice.Prelude.Int.{pos, negsuc}
use apue_pratice.Prelude.Outcome.{done}
use apue_pratice.Adio.Pipe.{
  PipeState, state_read, state_write, state_err, state_eof, Pipe, pipe_init, Transfer, failed,
  moved, finished, Exit, Files, open_all, bad_usage,
}
use apue_pratice.Adio.Select.{FdSets, fd_sets, error, switch_on, pipe_push, copy_loop, select_main}
use apue_pratice.Adio.Poll.{Revents, Polled, poll_ready, poll_switch, poll_push, poll_main}
use apue_pratice.Adio.Pipe.Copies.{AllHold}
use apue_pratice.Adio.Epoll.{
  EpollInterest, epollin, epollout, Registration, Event, Polling, events_ready, epoll_switch,
  epoll_push, epoll_main,
}
use apue_pratice.Adio.Select.Copies.{IsWholeRun, select_main_copies}
use apue_pratice.Adio.Select.Stuck.{IsPast, past_never_ends}
use apue_pratice.Adio.Select.Progress.{all_ready, ready_rounds, AllWhole, select_main_finishes}
use apue_pratice.Adio.Poll.Same.{
  Reports, AllReport, SameRounds, no_round, same_round, both_ready, poll_main-eq-select_main,
}
use apue_pratice.Adio.Epoll.Laws.{
  AllKernels, AllIdle, IsReport, interest_of, epoll_main_writes_nothing,
}

-- A source of two bytes, and a buffer that holds three.
abbrev file : Files
file = record { src_fd = some 3; dst_fd = some 4; content = 7 ∷ 8 ∷ []; memory = 1 ∷ 2 ∷ 3 ∷ [] }

abbrev first_pipe : Pipe
first_pipe = record {
  src = 3;
  dst = 4;
  state = state_read;
  buf = 1 ∷ 2 ∷ 3 ∷ [];
  off = pos 0;
  len = pos 0;
  err = pos 0;
  input = 7 ∷ 8 ∷ [];
  output = [];
}

abbrev last_pipe : Pipe
last_pipe = record first_pipe {
  state = state_eof;
  buf = 7 ∷ 8 ∷ 3 ∷ [];
  off = pos 2;
  len = pos 2;
  input = [];
  output = 7 ∷ 8 ∷ [];
}

abbrev whole : ℕ → Transfer
whole i = moved 4096

abbrev six_rounds : List (ℕ → Transfer)
six_rounds = whole ∷ whole ∷ whole ∷ whole ∷ whole ∷ whole ∷ []

opens : open_all (take ((3 - 1) / 2) (file ∷ [])) ≡ some (first_pipe ∷ [])
unfolding open_all pipe_init
opens = refl

select_runs :
    select_main 3 true (file ∷ []) (ready_rounds six_rounds)
    ≡ done (record { status = 0; pipes = last_pipe ∷ [] })
unfolding select_main bad_usage open_all pipe_init pipe_push fd_sets switch_on finished
select_runs = refl

six_whole : AllWhole six_rounds
six_whole = omega arith

run_whole : IsWholeRun (ready_rounds six_rounds)
run_whole = omega arith

select_main_copies_example :
    AllHold (map (λ (f : Files). f.content) (take ((3 - 1) / 2) (file ∷ []))) (last_pipe ∷ [])
    × (finished (last_pipe ∷ []) ≡ true)
select_main_copies_example =
    select_main_copies 3 true (file ∷ []) (ready_rounds six_rounds) run_whole select_runs refl

good_usage : bad_usage 3 ≡ false
unfolding bad_usage
good_usage = refl

select_main_finishes_example :
    (e : Exit) × (select_main 3 true (file ∷ []) (ready_rounds six_rounds) ≡ done e)
    × (e.status ≡ 0)
    × (map (λ (p : Pipe). p.output) e.pipes
        ≡ map (λ (f : Files). f.content) (take ((3 - 1) / 2) (file ∷ [])))
select_main_finishes_example =
    select_main_finishes 3 (file ∷ []) six_rounds (first_pipe ∷ []) good_usage opens six_whole
      (omega arith) (omega arith)

-- Two bytes in the buffer, to be written.
abbrev full_pipe : Pipe
full_pipe = record first_pipe { state = state_write; len = pos 2; input = [] }

abbrev past_pipe : Pipe
past_pipe = record full_pipe { off = pos 3 }

past : IsPast past_pipe
past = record {
  writing = refl;
  size = 2;
  at = 3;
  has_len = refl;
  has_off = refl;
  past = omega arith;
}

failing_run :
    copy_loop ((error 5 ∷ []) ∷ []) (past_pipe ∷ [])
    ≡ done (record { status = 1; pipes = past_pipe ∷ [] })
unfolding copy_loop pipe_push
failing_run = refl

past_never_ends_example : ◌≢◌ {A = ℕ} 1 0
past_never_ends_example =
    past_never_ends ((error 5 ∷ []) ∷ []) past_pipe (record { status = 1; pipes = past_pipe ∷ [] })
      ((tt, tt), tt) past failing_run

abbrev both_sets : FdSets
both_sets = record { nfds = 4; reads = 3 ∷ []; writes = 4 ∷ []; excepts = [] }

abbrev lost_pipe : Pipe
lost_pipe = record first_pipe { state = state_write; off = pos 0; len = negsuc 0 }

read_fails : switch_on state_read both_sets all_ready failed first_pipe ≡ done lost_pipe
unfolding switch_on
read_fails = refl

abbrev all_bits : ℕ → Revents
all_bits k = record { has_in = true; has_out = true; has_err = false }

all_bits-Reports : (i : ℕ) (p : Pipe) → Reports p.state i all_ready all_bits p
all_bits-Reports i p = go p.state
  where
    go : (st : PipeState) → Reports st i all_ready all_bits p
    go state_read = (refl, refl)
    go state_write = (refl, refl)
    go state_err = tt
    go state_eof = tt

all_bits-AllReport : (i : ℕ) (ps : List Pipe) → AllReport i all_ready all_bits ps
all_bits-AllReport i [] = tt
all_bits-AllReport i (p ∷ ps) = (all_bits-Reports i p, all_bits-AllReport (i + 1) ps)

abbrev poll_rounds : List (ℕ → Transfer) → List (Bool × List Polled)
poll_rounds ios = map (λ io. (true, poll_ready all_bits io ∷ [])) ios

all_same :
    (ios : List (ℕ → Transfer)) (ps : List Pipe)
    → SameRounds ps (ready_rounds ios) (poll_rounds ios)
all_same [] ps = no_round
all_same (io ∷ ios) ps =
    same_round (both_ready all_ready all_bits io (all_bits-AllReport 0 ps))
      (λ ps' h. all_same ios ps')

poll_main-eq-select_main_example :
    poll_main 3 true (file ∷ []) (poll_rounds six_rounds)
    ≡ done (record { status = 0; pipes = last_pipe ∷ [] })
poll_main-eq-select_main_example =
    poll_main-eq-select_main 3 true (file ∷ []) (ready_rounds six_rounds) (poll_rounds six_rounds) _
      (omega arith) (λ ps h. all_same six_rounds ps) select_runs

abbrev poll_round : Bool × List Polled
poll_round = (true, poll_ready all_bits whole ∷ [])

poll_runs :
    poll_main 3 true (file ∷ []) (poll_round ∷ poll_round ∷ poll_round ∷ [])
    ≡ done (record { status = 0; pipes = last_pipe ∷ [] })
unfolding poll_main bad_usage open_all pipe_init poll_push poll_switch finished
poll_runs = refl

-- The kernel that finds every registered source readable.
abbrev reports : List Registration → List Event
reports [] = []
reports (r ∷ rs) = elim r.interest [
  | epollin ↦
      record {
        target = r.target;
        has_in = true;
        has_err = false;
        has_hup = false;
        transfer = moved 9;
      }
      ∷ []
  | epollout ↦ []
]

abbrev honest : List Registration → Polling
honest rs = events_ready (reports rs)

reports-honest : (rs : List Registration) → IsReport rs (honest rs)
unfolding interest_of
reports-honest [] = tt
reports-honest (r ∷ rs) = go r.interest
  where
    go :
        (i : EpollInterest)
        → IsReport (record r { interest = i } ∷ rs) (honest (record r { interest = i } ∷ rs))
    go epollin = (λ _. ground arith, tt, tt)
    go epollout = tt

-- After 20 rounds the two bytes are in the buffer, and the program exits with status 0.
epoll_runs :
    epoll_main 3 true (file ∷ []) (replicate 20 (true, honest))
    ≡ done (record {
      status = 0;
      pipes =
          record first_pipe { state = state_write; buf = 7 ∷ 8 ∷ 3 ∷ []; len = pos 2; input = [] }
          ∷ [];
    })
unfolding epoll_main bad_usage open_all pipe_init epoll_push epoll_switch finished
epoll_runs = refl

all_honest : (n : ℕ) → AllKernels (replicate n (true, honest))
all_honest zero = tt
all_honest (suc n) = (reports-honest, all_honest n)

epoll_main_writes_nothing_example :
    (◌≡◌ {A = List Pipe}
      (record first_pipe { state = state_write; buf = 7 ∷ 8 ∷ 3 ∷ []; len = pos 2; input = [] }
        ∷ [])
      [])
    ⊎ AllIdle (map (λ (f : Files). f.content) (take ((3 - 1) / 2) (file ∷ []))) (
        record first_pipe { state = state_write; buf = 7 ∷ 8 ∷ 3 ∷ []; len = pos 2; input = [] }
        ∷ [])
epoll_main_writes_nothing_example =
    epoll_main_writes_nothing 3 true (file ∷ []) (replicate 20 (true, honest)) _ (all_honest 20)
      epoll_runs
