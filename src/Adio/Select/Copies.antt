-- ===== src/Adio/Select/Copies.antt =====
-- adio/select.c copies: at every moment the source is what was written, what the buffer holds and
-- what was not read yet, as long as no transfer fails or stops short.
use mathlib.Core.List.{append-nil}
use mathlib.Core.Bool.{not}
use apue_pratice.Prelude.{
  ℕ, ◌+◌, ◌-◌, ◌/◌, ◌≡◌, refl, ◌⊎◌, inl, inr, Bool, true, ◌&&◌, ◌||◌, List, [], ◌∷◌, map, arith,
  ◌==◌, Bool-cases, Option-cases, take,
}
use apue_pratice.Prelude.Int.{ℤ, pos, ◌+ℤ◌, eqb_ℤ}
use apue_pratice.Prelude.Outcome.{done, >>=-eq-done}
use apue_pratice.Adio.Pipe.{
  PipeState, state_read, state_write, state_err, state_eof, Pipe, Transfer, failed, moved,
  read_size, write_size, after_write, finished, Exit, Files, open_all, bad_usage, minus,
}
use apue_pratice.Adio.Select.{
  FdSets, contains, fd_sets, no_fds, Found, Selected, interrupted, error, ready, take_read,
  take_write, switch_on, advance_all, pipe_push, copy_loop, select_main,
}
use apue_pratice.Adio.Pipe.Copies.{
  IsWhole, HoldsAt, Holds, AllHold, read_size-zero, read_size-le, read-HoldsAt, write-HoldsAt,
  err-HoldsAt, open_all-AllHold,
}

take_read-Holds :
    (t : Transfer) (bytes : List ℕ) (p : Pipe)
    → IsWhole t
    → HoldsAt state_read bytes p
    → Holds bytes (take_read t p)
unfolding take_read
take_read-Holds failed bytes p w h = absurd w
take_read-Holds (moved k) bytes p w h = elim (Bool-cases (read_size k p.input == 0)) [
  | inl ended ↦ rw ended (rw (read_size-zero k p.input (ground arith), append-nil) at h)
  | inr more ↦ rw more (
      read-HoldsAt (read_size k p.input) bytes p (read_size-le k p.input).1
        (read_size-le k p.input).0 (ground arith) h)
]

take_write-Holds :
    (t : Transfer) (bytes : List ℕ) (p : Pipe) {p' : Pipe}
    → IsWhole t
    → HoldsAt state_write bytes p
    → take_write (write_size t p.len) p ≡ done p'
    → Holds bytes p'
unfolding take_write ◌+ℤ◌
take_write-Holds failed bytes p w h q = absurd w
take_write-Holds (moved k) bytes p {p'} w (n, el, eo, small, nonzero, h) q =
    let same : p' ≡ record (after_write n p) { off = pos n; state = state_read } = ground arith in
    rw same (write-HoldsAt n bytes p h)

pub switch_on-Holds :
    (st : PipeState) (s : FdSets) (f : Found) (t : Transfer) (bytes : List ℕ) (p : Pipe) {p' : Pipe}
    → IsWhole t
    → p.state ≡ st
    → HoldsAt st bytes p
    → switch_on st s f t p ≡ done p'
    → Holds bytes p'
unfolding switch_on
switch_on-Holds state_read s f t bytes p {p'} w e h q =
    elim (Bool-cases (contains s.excepts p.src && f.exceptional p.src)) [
      | inl failing ↦
          let same : p' ≡ record p { state = state_err } = ground arith in
          rw same (err-HoldsAt state_read bytes p h)
      | inr fine ↦ elim (Bool-cases (contains s.reads p.src && f.readable p.src)) [
        | inl now ↦
            let same : p' ≡ take_read t p = ground arith in rw same (take_read-Holds t bytes p w h)
        | inr idle ↦ let same : p' ≡ p = ground arith in rw (same, e) h
      ]
    ]
switch_on-Holds state_write s f t bytes p {p'} w e h q =
    elim (Bool-cases (contains s.excepts p.dst && f.exceptional p.dst)) [
      | inl failing ↦
          let same : p' ≡ record p { state = state_err } = ground arith in
          rw same (err-HoldsAt state_write bytes p h)
      | inr fine ↦ elim (Bool-cases (contains s.writes p.dst && f.writable p.dst)) [
        | inl now ↦
            let step : take_write (write_size t p.len) p ≡ done p' = ground arith in
            take_write-Holds t bytes p w h step
        | inr idle ↦ let same : p' ≡ p = ground arith in rw (same, e) h
      ]
    ]
switch_on-Holds state_err s f t bytes p {p'} w e h q = let same : p' ≡ p = cc in rw (same, e) h
switch_on-Holds state_eof s f t bytes p {p'} w e h q = let same : p' ≡ p = cc in rw (same, e) h

-- The transfers of a call of `select`, of a round and of a run are whole.
abbrev pub IsWholeCall : Selected → Type 0
IsWholeCall interrupted = Unit
IsWholeCall (error e) = Unit
IsWholeCall (ready f io) = (i : ℕ) → IsWhole (io i)

abbrev pub IsWholeRound : List Selected → Type 0
IsWholeRound [] = Unit
IsWholeRound (c ∷ cs) = IsWholeCall c × IsWholeRound cs

abbrev pub IsWholeRun : List (List Selected) → Type 0
IsWholeRun [] = Unit
IsWholeRun (r ∷ rs) = IsWholeRound r × IsWholeRun rs

advance_all-AllHold :
    (i : ℕ) (s : FdSets) (f : Found) (io : ℕ → Transfer) (bs : List (List ℕ)) (ps : List Pipe)
    {ps' : List Pipe}
    → ((j : ℕ) → IsWhole (io j))
    → AllHold bs ps
    → advance_all i s f io ps ≡ done ps'
    → AllHold bs ps'
unfolding advance_all
advance_all-AllHold i s f io [] [] {ps'} w h q = let same : [] ≡ ps' = cc in rw (← same) tt
advance_all-AllHold i s f io [] (p ∷ ps) w h q = absurd h
advance_all-AllHold i s f io (b ∷ bs) [] w h q = absurd h
advance_all-AllHold i s f io (b ∷ bs) (p ∷ ps) {ps'} w h q =
    let (p', e, d) = >>=-eq-done (switch_on p.state s f (io i) p) _ q in
    let (qs, e', d') = >>=-eq-done (advance_all (i + 1) s f io ps) _ d in
    let same : p' ∷ qs ≡ ps' = cc in
    rw (← same) (
      switch_on-Holds p.state s f (io i) b p (w i) refl h.0 e,
      advance_all-AllHold (i + 1) s f io bs ps w h.1 e',
    )

pub pipe_push-AllHold :
    (calls : List Selected) (bs : List (List ℕ)) (ps : List Pipe) (r : ℤ × List Pipe)
    → IsWholeRound calls
    → AllHold bs ps
    → pipe_push calls ps ≡ done r
    → AllHold bs r.1
unfolding pipe_push
pipe_push-AllHold [] bs ps r w h q = cc
pipe_push-AllHold (interrupted ∷ calls) bs ps r w h q = pipe_push-AllHold calls bs ps r w.1 h q
pipe_push-AllHold (error e ∷ calls) bs ps r w h q =
    let same : (minus e, ps) ≡ r = cc in rw (← same) h
pipe_push-AllHold (ready f io ∷ calls) bs ps r w h q =
    let (qs, e, d) = >>=-eq-done (advance_all 0 (fd_sets ps no_fds) f io ps) _ q in
    let same : (pos 0, qs) ≡ r = cc in
    rw (← same) (advance_all-AllHold 0 (fd_sets ps no_fds) f io bs ps w.0 h e)

pub copy_loop-AllHold :
    (rounds : List (List Selected)) (bs : List (List ℕ)) (ps : List Pipe) {e : Exit}
    → IsWholeRun rounds
    → AllHold bs ps
    → copy_loop rounds ps ≡ done e
    → AllHold bs e.pipes × ((e.status ≡ 1) ⊎ (e.status ≡ 0) × (finished e.pipes ≡ true))
unfolding copy_loop
copy_loop-AllHold [] bs ps w h q = cc
copy_loop-AllHold (calls ∷ rounds) bs ps {e} w h q =
    let (r, e₁, d) = >>=-eq-done (pipe_push calls ps) _ q in
    let kept = pipe_push-AllHold calls bs ps r w.0 h e₁ in
    elim (Bool-cases (eqb_ℤ r.0 (pos 0))) [
      | inr failing ↦
          let same : e ≡ record { status = 1; pipes = r.1 } = ground arith in
          rw same (kept, inl refl)
      | inl fine ↦ elim (Bool-cases (finished r.1)) [
        | inl ended ↦
            let same : e ≡ record { status = 0; pipes = r.1 } = ground arith in
            rw same (kept, inr (refl, ended))
        | inr going ↦
            let next : copy_loop rounds r.1 ≡ done e = ground arith in
            copy_loop-AllHold rounds bs r.1 w.1 kept next
      ]
    ]

-- If no transfer fails or stops short and the program exits with status 0, then it has opened all
-- its pairs of files, and every pipeline has either copied its source to the last byte, or was given
-- up on an exception with a beginning of it.
pub select_main_copies :
    (argc : ℕ) (memory : Bool) (files : List Files) (rounds : List (List Selected)) {e : Exit}
    → IsWholeRun rounds
    → select_main argc memory files rounds ≡ done e
    → e.status ≡ 0
    → AllHold (map (λ f. f.content) (take ((argc - 1) / 2) files)) e.pipes
      × (finished e.pipes ≡ true)
unfolding select_main
select_main_copies argc memory files rounds {e} w q z =
    let chosen = take ((argc - 1) / 2) files in
    elim (Bool-cases (bad_usage argc || not memory)) [
      | inl usage ↦
          let same : record { status = 1; pipes = [] } ≡ e = ground arith in absurd (ground arith)
      | inr fine ↦ elim (Option-cases (open_all chosen)) [
        | inl unopened ↦
            let same : record { status = 1; pipes = [] } ≡ e = ground arith in absurd (ground arith)
        | inr (ps, o) ↦
            let next : copy_loop rounds ps ≡ done e = ground arith in
            let (kept, ends) =
              copy_loop-AllHold rounds (map (λ f. f.content) chosen) ps w
                (open_all-AllHold chosen o) next in
            elim ends [ inl one ↦ absurd (omega arith) | inr (zero_status, ended) ↦ (kept, ended) ]
      ]
    ]
