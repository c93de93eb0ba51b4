-- ===== src/Adio/Poll/Same.antt =====
-- adio/poll.c against adio/select.c: the two programs copy alike while `poll` allows it 20 rounds.
use mathlib.Core.Bool.{not}
use apue_pratice.Prelude.{
  ℕ, zero, suc, ◌+◌, ◌-◌, ◌*◌, ◌/◌, ◌≤◌, ◌≡◌, refl, ap, ◌∙◌, inl, inr, Bool, true, ◌||◌, some, List,
  [], ◌∷◌, arith, Bool-cases, Option-cases, length, take, ◌==◌,
}
use apue_pratice.Prelude.Int.{ℤ, pos, negsuc, ◌+ℤ◌, eqb_ℤ, eq_of_parts}
use apue_pratice.Prelude.Outcome.{done, >>=-eq-done}
use apue_pratice.Adio.Pipe.{
  PipeState, state_read, state_write, state_err, state_eof, Pipe, Transfer, failed, moved,
  read_size, Written, outside, refused, wrote, write_size, after_write, finished, Exit, Files,
  open_all, bad_usage,
}
use apue_pratice.Adio.Select.{
  FdSets, fd_sets, no_fds, Found, Selected, interrupted, error, ready, take_read, advance_off,
  take_write, switch_on, advance_all, pipe_push, copy_loop, select_main,
}
use apue_pratice.Adio.Select.Sets.{WaitsIn, AllWait, fd_sets-AllWait}
use apue_pratice.Adio.Poll.{
  Revents, Polled, poll_interrupted, poll_error, poll_ready, poll_read, poll_moved, poll_write,
  poll_switch, poll_advance, poll_wait, poll_push, poll_loop, limits, poll_main,
}

poll_read-eq-take_read : (t : Transfer) (p : Pipe) → poll_read t p ≡ take_read t p
unfolding poll_read take_read
poll_read-eq-take_read failed p = refl
poll_read-eq-take_read (moved k) p = elim (Bool-cases (read_size k p.input == 0)) [
  | inl e ↦ let z : read_size k p.input ≡ 0 = ground arith in rw z refl
  | inr e ↦ rw e refl
]

poll_moved-eq-advance_off : (z : ℤ) (p : Pipe) → poll_moved z p ≡ advance_off z p
poll_moved-eq-advance_off z p = elim (Bool-cases (eqb_ℤ (p.off +ℤ z) p.len)) [
  | inl e ↦ rw e refl
  | inr e ↦ rw e refl
]

poll_write-eq-take_write : (w : Written) (p : Pipe) → poll_write w p ≡ take_write w p
unfolding poll_write take_write
poll_write-eq-take_write outside p = refl
poll_write-eq-take_write refused p = ap done (poll_moved-eq-advance_off (negsuc 0) p)
poll_write-eq-take_write (wrote n) p = ap done (poll_moved-eq-advance_off (pos n) (after_write n p))

-- `poll` reports of the descriptor that pipeline `i` waits for what `select` finds of it.
abbrev pub Reports : PipeState → ℕ → Found → (ℕ → Revents) → Pipe → Type 0
Reports state_read i f re p =
    ((re (i * 2)).has_err ≡ f.exceptional p.src) × ((re (i * 2)).has_in ≡ f.readable p.src)
Reports state_write i f re p =
    ((re (i * 2 + 1)).has_err ≡ f.exceptional p.dst) × ((re (i * 2 + 1)).has_out ≡ f.writable p.dst)
Reports state_err i f re p = Unit
Reports state_eof i f re p = Unit

abbrev pub AllReport : ℕ → Found → (ℕ → Revents) → List Pipe → Type 0
AllReport i f re [] = Unit
AllReport i f re (p ∷ ps) = Reports p.state i f re p × AllReport (i + 1) f re ps

poll_switch-eq-switch_on :
    (st : PipeState) (i : ℕ) (re : ℕ → Revents) (s : FdSets) (f : Found) (t : Transfer) (p : Pipe)
    → WaitsIn st p s
    → Reports st i f re p
    → poll_switch st i re t p ≡ switch_on st s f t p
unfolding poll_switch switch_on
poll_switch-eq-switch_on state_read i re s f t p w r =
    rw (r.0, r.1, w.0, w.1, poll_read-eq-take_read t p) refl
poll_switch-eq-switch_on state_write i re s f t p w r =
    rw (r.0, r.1, w.0, w.1, poll_write-eq-take_write (write_size t p.len) p) refl
poll_switch-eq-switch_on state_err i re s f t p w r = refl
poll_switch-eq-switch_on state_eof i re s f t p w r = refl

poll_advance-eq-advance_all :
    (i : ℕ) (re : ℕ → Revents) (s : FdSets) (f : Found) (io : ℕ → Transfer) (ps : List Pipe)
    → AllWait ps s
    → AllReport i f re ps
    → poll_advance i re io ps ≡ advance_all i s f io ps
unfolding poll_advance advance_all
poll_advance-eq-advance_all i re s f io [] w r = refl
poll_advance-eq-advance_all i re s f io (p ∷ ps) w r =
    rw
      (
        poll_switch-eq-switch_on p.state i re s f (io i) p w.0 r.0,
        poll_advance-eq-advance_all (i + 1) re s f io ps w.1 r.1,
      )
      refl

-- The outcomes of the calls in one round: the same errors, and the same answers to the transfers.
pub data SameCalls (ps : List Pipe) : List Selected → List Polled → Type 0 where
  both_interrupted :
      {calls : List Selected} {polls : List Polled}
      → SameCalls ps calls polls
      → SameCalls ps (interrupted ∷ calls) (poll_interrupted ∷ polls)
  both_fail :
      {calls : List Selected} {polls : List Polled} (e : ℕ)
      → SameCalls ps (error e ∷ calls) (poll_error e ∷ polls)
  both_ready :
      {calls : List Selected} {polls : List Polled} (f : Found) (re : ℕ → Revents)
      (io : ℕ → Transfer)
      → AllReport 0 f re ps
      → SameCalls ps (ready f io ∷ calls) (poll_ready re io ∷ polls)

-- The same in each round, by the pipelines that it starts from.
pub data SameRounds : List Pipe → List (List Selected) → List (Bool × List Polled) → Type 0 where
  no_round : {ps : List Pipe} {rs : List (Bool × List Polled)} → SameRounds ps [] rs
  same_round :
      {ps : List Pipe} {calls : List Selected} {polls : List Polled} {rounds : List (List Selected)}
      {rs : List (Bool × List Polled)}
      → SameCalls ps calls polls
      → ((ps' : List Pipe) → pipe_push calls ps ≡ done (pos 0, ps') → SameRounds ps' rounds rs)
      → SameRounds ps (calls ∷ rounds) ((true, polls) ∷ rs)

poll_wait-eq-pipe_push :
    (ps : List Pipe) {calls : List Selected} {polls : List Polled}
    → SameCalls ps calls polls
    → poll_wait polls ps ≡ pipe_push calls ps
unfolding poll_wait pipe_push
poll_wait-eq-pipe_push ps (both_interrupted h) = poll_wait-eq-pipe_push ps h
poll_wait-eq-pipe_push ps (both_fail e) = refl
poll_wait-eq-pipe_push ps (both_ready f re io h) =
    rw (poll_advance-eq-advance_all 0 re (fd_sets ps no_fds) f io ps (fd_sets-AllWait ps no_fds) h)
      refl

poll_push-eq-pipe_push :
    (ps : List Pipe) {calls : List Selected} {polls : List Polled}
    → SameCalls ps calls polls
    → poll_push true polls ps ≡ pipe_push calls ps
unfolding poll_push
poll_push-eq-pipe_push [] h = poll_wait-eq-pipe_push [] h
poll_push-eq-pipe_push (p ∷ ps) h = poll_wait-eq-pipe_push (p ∷ ps) h

poll_loop-eq-copy_loop :
    (j : ℕ) {ps : List Pipe} {rounds : List (List Selected)} {rs : List (Bool × List Polled)}
    {e : Exit}
    → length rounds ≤ j
    → SameRounds ps rounds rs
    → copy_loop rounds ps ≡ done e
    → poll_loop j rs ps ≡ done e
unfolding poll_loop copy_loop
poll_loop-eq-copy_loop j le no_round q = cc
poll_loop-eq-copy_loop zero le (same_round c h) q = absurd (omega (arith, le))
poll_loop-eq-copy_loop (suc j) {e} le (same_round {ps} {calls} {polls} c h) q =
    let (r, pushed, d) = >>=-eq-done (pipe_push calls ps) _ q in
    let same : poll_push true polls ps ≡ done r = poll_push-eq-pipe_push ps c ∙ pushed in
    elim (Bool-cases (eqb_ℤ r.0 (pos 0))) [
      | inr failing ↦ rw (same, failing) (ground (arith, d, failing))
      | inl fine ↦ elim (Bool-cases (finished r.1)) [
        | inl ended ↦ rw (same, fine, ended) (ground (arith, d, fine, ended))
        | inr going ↦
            let zero_result : r.0 ≡ pos 0 = eq_of_parts r.0 (pos 0) (ground (arith, fine)) in
            rw (same, fine, going)
              (poll_loop-eq-copy_loop j (omega (arith, le))
                (h r.1 (pushed ∙ ap (λ z. done (z, r.1)) zero_result))
                (ground (arith, d, fine, going)))
      ]
    ]

-- Where `poll` and `select` come to the same in each round, of the descriptors that the program waits for
-- there, and the array of `pipe_push` has room for its entries, for half of which `malloc` is asked: a run of adio/select.c that exits within 20 rounds is a run of
-- adio/poll.c, which exits with the same status and has copied the same bytes.
pub poll_main-eq-select_main :
    (argc : ℕ) (memory : Bool) (files : List Files) (rounds : List (List Selected))
    (rs : List (Bool × List Polled)) (e : Exit)
    → length rounds ≤ limits
    → ((ps : List Pipe)
        → open_all (take ((argc - 1) / 2) files) ≡ some ps
        → SameRounds ps rounds rs)
    → select_main argc memory files rounds ≡ done e
    → poll_main argc memory files rs ≡ done e
unfolding select_main poll_main
poll_main-eq-select_main argc memory files rounds rs e le same q =
    elim (Bool-cases (bad_usage argc || not memory)) [
      | inl usage ↦ ground (arith, q, usage)
      | inr fine ↦ elim (Option-cases (open_all (take ((argc - 1) / 2) files))) [
        | inl unopened ↦ ground (arith, q, fine, unopened)
        | inr (ps, o) ↦
            rw (fine, o) (poll_loop-eq-copy_loop limits le (same ps o) (ground (arith, q, fine, o)))
      ]
    ]
