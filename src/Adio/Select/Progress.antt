-- ===== src/Adio/Select/Progress.antt =====
-- adio/select.c comes to an end: where every descriptor is ready and no transfer fails or stops
-- short, each round brings the pipelines nearer to it.
use apue_pratice.Prelude.{
  ℕ, ◌+◌, ◌-◌, ◌*◌, ◌/◌, ◌≤◌, ◌<◌, ◌≡◌, refl, ◌≢◌, inl, inr, Bool, true, false, some, List, [], ◌∷◌,
  map, arith, ◌==◌, Bool-cases, length, take, length-drop,
}
use apue_pratice.Prelude.Int.{pos, ◌+ℤ◌}
use apue_pratice.Prelude.Outcome.{done}
use apue_pratice.Adio.Pipe.{
  PipeState, state_read, state_write, state_err, state_eof, Pipe, pipe_init, Transfer, failed,
  moved, read_size, after_read, after_write, settled, finished, Exit, Files, open_all, bad_usage,
}
use apue_pratice.Adio.Select.{
  FdSets, fd_sets, no_fds, Found, Selected, ready, take_read, take_write, switch_on, advance_all,
  pipe_push, copy_loop, select_main,
}
use apue_pratice.Adio.Pipe.Copies.{
  IsWhole, HoldsAt, AllHold, read_size-le, open_all-AllHold, open_all-cons,
}
use apue_pratice.Adio.Select.Copies.{pipe_push-AllHold}
use apue_pratice.Adio.Select.Sets.{WaitsIn, AllWait, fd_sets-AllWait}

-- How many rounds a pipeline still takes, at most.
abbrev pub rounds_at : PipeState → Pipe → ℕ
rounds_at state_read p = 2 * length p.input + 1
rounds_at state_write p = 2 * length p.input + 2
rounds_at state_err p = 0
rounds_at state_eof p = 0

abbrev pub rounds_left : List Pipe → ℕ
rounds_left [] = 0
rounds_left (p ∷ ps) = rounds_at p.state p + rounds_left ps

-- Every descriptor is ready, and none is in an exceptional state.
abbrev pub all_ready : Found
all_ready = record { readable = λ _. true; writable = λ _. true; exceptional = λ _. false }

abbrev one_less : Bool → ℕ
one_less true = 0
one_less false = 1

switch_progress :
    (st : PipeState) (s : FdSets) (t : Transfer) (b : List ℕ) (p : Pipe)
    → IsWhole t
    → HoldsAt st b p
    → WaitsIn st p s
    → p.state ≡ st
    → (p' : Pipe) × (switch_on st s all_ready t p ≡ done p')
      × (rounds_at p'.state p' + one_less (settled st) ≤ rounds_at st p)
      × (st ≢ state_err → p'.state ≢ state_err)
unfolding switch_on take_read take_write settled ◌+ℤ◌
switch_progress state_read s failed b p w h i e = absurd w
switch_progress state_read s (moved k) b p w h i e = elim (Bool-cases (read_size k p.input == 0)) [
  | inl ended ↦ (record p { state = state_eof }, ground arith, ground arith, λ ne q. cc)
  | inr more ↦
      let sz = read_size k p.input in
      (
        record (after_read sz p) { state = state_write; off = pos 0; len = pos sz },
        ground arith,
        ground (arith, length-drop sz p.input, read_size-le k p.input),
        λ ne q. cc,
      )
]
switch_progress state_write s failed b p w h i e = absurd w
switch_progress state_write s (moved k) b p w (n, el, eo, small, nonzero, h) i e = (
  record (after_write n p) { off = pos n; state = state_read },
  ground arith,
  ground arith,
  λ ne q. cc,
)
switch_progress state_err s t b p w h i e = (p, ground arith, ground arith, λ ne q. ne refl)
switch_progress state_eof s t b p w h i e = (p, ground arith, ground arith, λ ne q. cc)

-- No pipeline was given up on.
abbrev pub NoneFailed : List Pipe → Type 0
NoneFailed [] = Unit
NoneFailed (p ∷ ps) = (p.state ≢ state_err) × NoneFailed ps

advance_progress :
    (i : ℕ) (s : FdSets) (io : ℕ → Transfer) (bs : List (List ℕ)) (ps : List Pipe)
    → ((j : ℕ) → IsWhole (io j))
    → AllHold bs ps
    → AllWait ps s
    → NoneFailed ps
    → (ps' : List Pipe) × (advance_all i s all_ready io ps ≡ done ps')
      × (rounds_left ps' + one_less (finished ps) ≤ rounds_left ps)
      × NoneFailed ps'
unfolding advance_all finished
advance_progress i s io [] [] w h a n = ([], refl, omega arith, tt)
advance_progress i s io [] (p ∷ ps) w h a n = absurd h
advance_progress i s io (b ∷ bs) [] w h a n = absurd h
advance_progress i s io (b ∷ bs) (p ∷ ps) w h a n =
    let (p', e, less, fine) = switch_progress p.state s (io i) b p (w i) h.0 a.0 refl in
    let (ps', e', less', fine') = advance_progress (i + 1) s io bs ps w h.1 a.1 n.1 in
    (p' ∷ ps', rw (e, e'), ground arith, (fine n.0, fine'))

-- The rounds in which every descriptor is ready.
abbrev pub ready_rounds : List (ℕ → Transfer) → List (List Selected)
ready_rounds [] = []
ready_rounds (io ∷ ios) = (ready all_ready io ∷ []) ∷ ready_rounds ios

abbrev pub AllWhole : List (ℕ → Transfer) → Type 0
AllWhole [] = Unit
AllWhole (io ∷ ios) = ((i : ℕ) → IsWhole (io i)) × AllWhole ios

finished_none_left : (ps : List Pipe) → finished ps ≡ true → rounds_left ps ≡ 0
unfolding finished settled
finished_none_left [] h = refl
finished_none_left (p ∷ ps) h = ground (arith, finished_none_left ps)

none_left_finished : (ps : List Pipe) → rounds_left ps ≡ 0 → finished ps ≡ true
unfolding finished settled
none_left_finished [] h = refl
none_left_finished (p ∷ ps) h = ground (arith, none_left_finished ps)

-- Pipelines that are all at the end of their sources have copied them.
finished_copied :
    (bs : List (List ℕ)) (ps : List Pipe)
    → AllHold bs ps
    → NoneFailed ps
    → finished ps ≡ true
    → map (λ (p : Pipe). p.output) ps ≡ bs
unfolding finished settled
finished_copied [] [] h n f = refl
finished_copied [] (p ∷ ps) h n f = absurd h
finished_copied (b ∷ bs) [] h n f = absurd h
finished_copied (b ∷ bs) (p ∷ ps) h n f = go p.state refl h.0 (finished_copied bs ps h.1 n.1)
  where
    go :
        (st : PipeState)
        → p.state ≡ st
        → HoldsAt st b p
        → (finished ps ≡ true → map (λ (q : Pipe). q.output) ps ≡ bs)
        → map (λ (q : Pipe). q.output) (p ∷ ps) ≡ b ∷ bs
    go state_read e k rest = ground arith
    go state_write e k rest = ground arith
    go state_err e k rest = absurd (n.0 e)
    go state_eof e k rest = ground (arith, rest)

copy_finishes :
    (ios : List (ℕ → Transfer)) (bs : List (List ℕ)) (ps : List Pipe)
    → AllWhole ios
    → AllHold bs ps
    → NoneFailed ps
    → rounds_left ps ≤ length ios
    → 0 < length ios
    → (e : Exit) × (copy_loop (ready_rounds ios) ps ≡ done e)
      × (e.status ≡ 0)
      × (map (λ (p : Pipe). p.output) e.pipes ≡ bs)
unfolding copy_loop pipe_push
copy_finishes [] bs ps w h n le lt = absurd (omega arith)
copy_finishes (io ∷ ios) bs ps w h n le lt =
    let s = fd_sets ps no_fds in
    let (ps', e, less, fine) = advance_progress 0 s io bs ps w.0 h (fd_sets-AllWait ps no_fds) n in
    let pushed : pipe_push (ready all_ready io ∷ []) ps ≡ done (pos 0, ps') = rw e refl in
    let kept : AllHold bs ps' =
      pipe_push-AllHold (ready all_ready io ∷ []) bs ps (pos 0, ps') (w.0, tt) h pushed in
    elim (Bool-cases (finished ps')) [
      | inl ended ↦ (
        record { status = 0; pipes = ps' },
        rw e (rw ended refl),
        refl,
        finished_copied bs ps' kept fine ended,
      )
      | inr going ↦
          let (x, q, z, o) =
            copy_finishes ios bs ps' w.1 kept fine
              (ground (arith, finished_none_left ps, none_left_finished ps'))
              (ground (arith, finished_none_left ps, none_left_finished ps')) in
          (x, rw e (rw going q), z, o)
    ]

open_all-NoneFailed : (fs : List Files) {ps : List Pipe} → open_all fs ≡ some ps → NoneFailed ps
unfolding open_all pipe_init
open_all-NoneFailed [] {ps} q = let same : [] ≡ ps = cc in rw (← same) tt
open_all-NoneFailed (f ∷ fs) q =
    let (src, dst, qs, o, same) = open_all-cons f fs q in
    rw same (λ e. cc, open_all-NoneFailed fs o)

-- Twice the bytes of the sources, and one for each file.
abbrev pub rounds_for : List Files → ℕ
rounds_for [] = 0
rounds_for (f ∷ fs) = 2 * length f.content + 1 + rounds_for fs

rounds_left-open_all :
    (fs : List Files) {ps : List Pipe} → open_all fs ≡ some ps → rounds_left ps ≡ rounds_for fs
unfolding open_all pipe_init
rounds_left-open_all [] {ps} q = let same : [] ≡ ps = cc in rw (← same) refl
rounds_left-open_all (f ∷ fs) q =
    let (src, dst, qs, o, same) = open_all-cons f fs q in
    rw same (omega (arith, rounds_left-open_all fs o))

-- If the arguments are as `main` wants them, every file opens, every descriptor is always ready and
-- every transfer moves all that it can, then as many rounds as twice the bytes of the sources, and
-- one for each file, are enough, where that is at least one round: the program exits with status 0, and
-- has copied every source.
pub select_main_finishes :
    (argc : ℕ) (files : List Files) (ios : List (ℕ → Transfer)) (ps : List Pipe)
    → bad_usage argc ≡ false
    → open_all (take ((argc - 1) / 2) files) ≡ some ps
    → AllWhole ios
    → rounds_for (take ((argc - 1) / 2) files) ≤ length ios
    → 0 < length ios
    → (e : Exit) × (select_main argc true files (ready_rounds ios) ≡ done e)
      × (e.status ≡ 0)
      × (map (λ (p : Pipe). p.output) e.pipes
          ≡ map (λ (f : Files). f.content) (take ((argc - 1) / 2) files))
unfolding select_main
select_main_finishes argc files ios ps usage o w le lt =
    let chosen = take ((argc - 1) / 2) files in
    let (e, q, z, copied) =
      copy_finishes ios (map (λ f. f.content) chosen) ps w (open_all-AllHold chosen o)
        (open_all-NoneFailed chosen o) (omega (arith, rounds_left-open_all chosen o)) lt in
    (e, rw (usage, o) q, z, copied)
