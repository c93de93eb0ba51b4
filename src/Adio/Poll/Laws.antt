-- ===== src/Adio/Poll/Laws.antt =====
-- What the 20 rounds of adio/poll.c can copy.
use mathlib.Core.Bool.{not}
use apue_pratice.Prelude.{
  ℕ, zero, suc, ◌+◌, ◌-◌, ◌*◌, ◌/◌, ◌≤◌, ◌≡◌, refl, ap, inl, inr, Bool, true, false, ◌||◌, some,
  List, [], ◌∷◌, arith, Bool-cases, Option-cases, length, length-append, take, length-take,
}
use apue_pratice.Prelude.Int.{ℤ, pos, negsuc, ◌+ℤ◌, eqb_ℤ}
use apue_pratice.Prelude.Outcome.{done, >>=-eq-done}
use apue_pratice.Adio.Pipe.{
  buf_size, PipeState, state_read, state_write, state_err, state_eof, Pipe, pipe_init, Transfer,
  failed, moved, Written, outside, refused, wrote, write_size, after_write, finished, Exit, Files,
  open_all, bad_usage, minus,
}
use apue_pratice.Adio.Pipe.Copies.{open_all-cons}
use apue_pratice.Adio.Poll.{
  Revents, Polled, poll_interrupted, poll_error, poll_ready, poll_read, poll_moved, poll_write,
  poll_switch, poll_advance, poll_wait, poll_push, poll_loop, limits, poll_main,
}

-- No output is longer than so many bytes.
abbrev pub AllShort : ℕ → List Pipe → Type 0
AllShort n [] = Unit
AllShort n (p ∷ ps) = (length p.output ≤ n) × AllShort n ps

AllShort-mono : (m n : ℕ) (ps : List Pipe) → m ≤ n → AllShort m ps → AllShort n ps
AllShort-mono m n [] h a = tt
AllShort-mono m n (p ∷ ps) h a = (omega arith, AllShort-mono m n ps h a.1)

-- `write` is never asked for more than the buffer holds.
write_size-le : (t : Transfer) (len : ℤ) (m : ℕ) → write_size t len ≡ wrote m → m ≤ buf_size
write_size-le failed (pos n) m q = ground arith
write_size-le (moved k) (pos n) m q = ground arith
write_size-le t (negsuc n) m q = cc

poll_moved-output : (z : ℤ) (p : Pipe) → (poll_moved z p).output ≡ p.output
unfolding ◌+ℤ◌
poll_moved-output z p = refl

written_grows :
    (w : Written) (n : ℕ) (p p' : Pipe)
    → ((m : ℕ) → w ≡ wrote m → m ≤ buf_size)
    → length p.output ≤ n
    → poll_write w p ≡ done p'
    → length p'.output ≤ n + buf_size
unfolding poll_write
written_grows outside n p p' b h q = cc
written_grows refused n p p' b h q =
    let same : poll_moved (negsuc 0) p ≡ p' = cc in
    rw (← same) (rw (poll_moved-output (negsuc 0) p) (omega arith))
written_grows (wrote m) n p p' b h q =
    let same : poll_moved (pos m) (after_write m p) ≡ p' = cc in
    rw (← same) (
      rw (poll_moved-output (pos m) (after_write m p))
        (omega (arith, length-append p.output (take m p.buf), length-take m p.buf, b m refl)))

poll_read-output : (t : Transfer) (p : Pipe) → (poll_read t p).output ≡ p.output
unfolding poll_read
poll_read-output failed p = refl
poll_read-output (moved k) p = ground arith

switch_grows :
    (st : PipeState) (i : ℕ) (re : ℕ → Revents) (t : Transfer) (n : ℕ) (p p' : Pipe)
    → length p.output ≤ n
    → poll_switch st i re t p ≡ done p'
    → length p'.output ≤ n + buf_size
unfolding poll_switch
switch_grows state_read i re t n p p' h q =
    ground (arith, ap (length {A = ℕ}) (poll_read-output t p))
switch_grows state_write i re t n p p' h q =
    ground (arith, written_grows (write_size t p.len) n p p' (write_size-le t p.len) h)
switch_grows state_err i re t n p p' h q = ground arith
switch_grows state_eof i re t n p p' h q = ground arith

advance_grows :
    (i : ℕ) (re : ℕ → Revents) (io : ℕ → Transfer) (n : ℕ) (ps : List Pipe) {ps' : List Pipe}
    → AllShort n ps
    → poll_advance i re io ps ≡ done ps'
    → AllShort (n + buf_size) ps'
unfolding poll_advance
advance_grows i re io n [] {ps'} h q = let same : [] ≡ ps' = cc in rw (← same) tt
advance_grows i re io n (p ∷ ps) {ps'} h q =
    let (p', e, d) = >>=-eq-done (poll_switch p.state i re (io i) p) _ q in
    let (qs, e', d') = >>=-eq-done (poll_advance (i + 1) re io ps) _ d in
    let same : p' ∷ qs ≡ ps' = cc in
    rw (← same)
      (switch_grows p.state i re (io i) n p p' h.0 e, advance_grows (i + 1) re io n ps h.1 e')

push_grows :
    (memory : Bool) (calls : List Polled) (n : ℕ) (ps : List Pipe) (r : ℤ × List Pipe)
    → AllShort n ps
    → poll_push memory calls ps ≡ done r
    → AllShort (n + buf_size) r.1
unfolding poll_push poll_wait
push_grows memory calls n ps r h q = wait calls (reached memory ps q)
  where
    reached :
        (m : Bool) (qs : List Pipe) → poll_push m calls qs ≡ done r → poll_wait calls qs ≡ done r
    reached m [] e = e
    reached true (p ∷ qs) e = e
    reached false (p ∷ qs) e = cc

    wait : (cs : List Polled) → poll_wait cs ps ≡ done r → AllShort (n + buf_size) r.1
    wait [] e = cc
    wait (poll_interrupted ∷ cs) e = wait cs e
    wait (poll_error x ∷ cs) e =
        let same : (minus x, ps) ≡ r = cc in
        rw (← same) (AllShort-mono n (n + buf_size) ps (omega arith) h)
    wait (poll_ready re io ∷ cs) e =
        let (qs, e₁, d) = >>=-eq-done (poll_advance 0 re io ps) _ e in
        let same : (pos 0, qs) ≡ r = cc in rw (← same) (advance_grows 0 re io n ps h e₁)

loop_grows :
    (j n : ℕ) (rounds : List (Bool × List Polled)) (ps : List Pipe) {e : Exit}
    → AllShort n ps
    → poll_loop j rounds ps ≡ done e
    → AllShort (n + j * buf_size) e.pipes
unfolding poll_loop
loop_grows zero n rounds ps {e} h q =
    let same : record { status = 0; pipes = ps } ≡ e = cc in
    rw (← same) (AllShort-mono n (n + 0 * buf_size) ps (omega arith) h)
loop_grows (suc j) n [] ps h q = cc
loop_grows (suc j) n ((memory, calls) ∷ rounds) ps {e} h q =
    let (r, e₁, d) = >>=-eq-done (poll_push memory calls ps) _ q in
    let grown : AllShort (n + buf_size) r.1 = push_grows memory calls n ps r h e₁ in
    let wide : AllShort (n + suc j * buf_size) r.1 =
      AllShort-mono (n + buf_size) (n + suc j * buf_size) r.1 (omega arith) grown in
    elim (Bool-cases (eqb_ℤ r.0 (pos 0))) [
      | inr failing ↦
          let same : record { status = 1; pipes = r.1 } ≡ e = ground arith in rw (← same) wide
      | inl fine ↦ elim (Bool-cases (finished r.1)) [
        | inl ended ↦
            let same : record { status = 0; pipes = r.1 } ≡ e = ground arith in rw (← same) wide
        | inr going ↦
            let next : poll_loop j rounds r.1 ≡ done e = ground arith in
            let widths : n + buf_size + j * buf_size ≡ n + suc j * buf_size = omega arith in
            rw (← widths) (loop_grows j (n + buf_size) rounds r.1 grown next)
      ]
    ]

opened-AllShort : (fs : List Files) {ps : List Pipe} → open_all fs ≡ some ps → AllShort 0 ps
unfolding pipe_init open_all
opened-AllShort [] {ps} q = let same : [] ≡ ps = cc in rw (← same) tt
opened-AllShort (f ∷ fs) q =
    let (src, dst, qs, o, same) = open_all-cons f fs q in
    rw same (omega arith, opened-AllShort fs o)

-- However the kernel answers, when adio/poll.c exits it has written no more than 20 buffers to any
-- file: a longer source is not copied to its end, also where the exit status is 0.
poll_main_bounded :
    (argc : ℕ) (memory : Bool) (files : List Files) (rounds : List (Bool × List Polled)) {e : Exit}
    → poll_main argc memory files rounds ≡ done e
    → AllShort (limits * buf_size) e.pipes
unfolding poll_main
poll_main_bounded argc memory files rounds {e} q =
    let chosen = take ((argc - 1) / 2) files in
    elim (Bool-cases (bad_usage argc || not memory)) [
      | inl usage ↦
          let same : record { status = 1; pipes = [] } ≡ e = ground arith in rw (← same) tt
      | inr fine ↦ elim (Option-cases (open_all chosen)) [
        | inl unopened ↦
            let same : record { status = 1; pipes = [] } ≡ e = ground arith in rw (← same) tt
        | inr (ps, o) ↦
            let next : poll_loop limits rounds ps ≡ done e = ground arith in
            loop_grows limits 0 rounds ps (opened-AllShort chosen o) next
      ]
    ]
