-- ===== src/Counter/Ends.antt =====
-- The programs of `Counter/Model.antt` end: some step is always possible, and each brings the end nearer.
use native.Mathlib.Decide.{dec_lt}
use mathlib.Core.Path.{subst}
use apue_pratice.Prelude.{
  ℕ, zero, suc, ◌+◌, ◌-◌, ◌*◌, ◌≤◌, ◌≡◌, refl, sym, ap, ◌∙◌, ◌≢◌, ◌⊎◌, inl, inr, true, false,
  Option, none, some, arith,
}
use apue_pratice.Thread.Family.{change, sum_below, sum_below-change, sum_below-same}
use apue_pratice.Counter.Model.{
  Lock, Cell, Pc, unborn, outside, entered, loaded, stored, left, MainPc, creating, joining,
  printed, Threads, Move, take_lock, load_it, store_it, give_lock, Step, by_thread, create,
  created_all, join, print_it, Reach, start, next,
}
use apue_pratice.Counter.Invariant.{inside, MainFits, Inv}
use apue_pratice.Counter.Kept.{Reach-Inv, printed_total, inside_taken}

-- The steps that a thread has still to be taken through.
abbrev pub stage : {L : Type 0} → Pc L → ℕ
stage unborn = 5
stage outside = 4
stage entered = 3
stage (loaded _) = 2
stage stored = 1
stage left = 0

-- The steps of `main` that are not the creation of a thread.
abbrev pub main_stage : {M : Type 0} → ℕ → MainPc M → ℕ
main_stage n (creating i) = n + 2
main_stage n (joining i) = n - i + 1
main_stage n (printed m) = 0

module _ (lock : Lock) (cell : Cell) where
  open lock use {LockState, IsFree, IsTaken, can_take, can_give}
  open cell use {Memory, Loaded, load, store}

  -- The steps that are still to come.
  abbrev pub work : ℕ → Threads lock cell → ℕ
  work n s = sum_below stage n s.pcs + main_stage n s.main

  pub steps : {n : ℕ} {s : Threads lock cell} → Reach lock cell n s → ℕ
  steps start = 0
  steps (next r st) = suc (steps r)

  Move-stage :
      {k k' : LockState} {m m' : Memory} {p p' : Pc Loaded}
      → Move lock cell k m p k' m' p'
      → suc (stage p') ≡ stage p
  Move-stage (take_lock t) = refl
  Move-stage load_it = refl
  Move-stage store_it = refl
  Move-stage (give_lock t) = refl

  Move-started :
      {k k' : LockState} {m m' : Memory} {p p' : Pc Loaded}
      → Move lock cell k m p k' m' p'
      → p ≢ unborn
  Move-started (take_lock t) = λ q. cc
  Move-started load_it = λ q. cc
  Move-started store_it = λ q. cc
  Move-started (give_lock t) = λ q. cc

  step-work :
      (n : ℕ) {o : Option ℕ} {s t : Threads lock cell}
      → Inv lock cell n o s
      → Step lock cell n s t
      → suc (work n t) ≡ work n s
  step-work n {o} {s} inv (by_thread i {p} mv) =
      omega (
        arith,
        sum_below-change stage n i p s.pcs (Inv.born inv i (Move-started mv)),
        Move-stage mv,
      )
  step-work n {o} {s} inv (create {i} q h) =
      let fits_main : MainFits lock cell n s.mem s.pcs (creating i) =
        subst (λ c. MainFits lock cell n s.mem s.pcs c) q (Inv.main_fits inv) in
      let fresh_thread : s.pcs i ≡ unborn = fits_main.1 i (ground arith) in
      ground (arith, sum_below-change stage n i outside s.pcs h)
  step-work n inv (created_all q) = ground arith
  step-work n inv (join q h l) = ground arith
  step-work n inv (print_it q) = ground arith

  stages_at_start : (n : ℕ) → sum_below stage n (λ _. let p : Pc Loaded = unborn in p) ≡ 5 * n
  stages_at_start n = sum_below-same stage 5 n (λ _. unborn) (λ i. refl)

  steps-work :
      {n : ℕ} {s : Threads lock cell} (r : Reach lock cell n s) → steps r + work n s ≡ 6 * n + 2
  unfolding steps
  steps-work {n} start = omega (arith, stages_at_start n)
  steps-work {n} (next r st) =
      let (o, inv) = Reach-Inv lock cell r in omega (arith, steps-work r, step-work n inv st)

  -- A thread can move, where its place is given: from inside the lock when that is taken, into it when it
  -- is free.
  CanMove : LockState → Memory → Pc Loaded → Type 0
  CanMove k m p =
      (k' : LockState) × (m' : Memory) × (p' : Pc Loaded) × Move lock cell k m p k' m' p'

  inside_moves :
      (k : LockState) (m : Memory) (p : Pc Loaded) → IsTaken k → inside p ≡ true → CanMove k m p
  unfolding CanMove
  inside_moves k m entered h q = (k, m, loaded (load m), load_it)
  inside_moves k m (loaded l) h q = (k, store l m, stored, store_it)
  inside_moves k m stored h q = let (k', g) = can_give k h in (k', m, left, give_lock g)
  inside_moves k m unborn h q = absurd (let no : false ≢ true = λ e. cc in no q)
  inside_moves k m outside h q = absurd (let no : false ≢ true = λ e. cc in no q)
  inside_moves k m left h q = absurd (let no : false ≢ true = λ e. cc in no q)

  StepFrom : ℕ → Threads lock cell → Type 0
  StepFrom n s = (t : Threads lock cell) × Step lock cell n s t

  move_step : (n i : ℕ) (s : Threads lock cell) → CanMove s.held s.mem (s.pcs i) → StepFrom n s
  unfolding CanMove StepFrom
  move_step n i s (k, m, p, mv) =
      (record { held = k; mem = m; pcs = change i p s.pcs; main = s.main }, by_thread i mv)

  -- While some thread is outside the lock, some thread can move.
  someone_moves :
      (n i : ℕ) (o : Option ℕ) {s : Threads lock cell}
      → Inv lock cell n o s
      → s.pcs i ≡ outside
      → StepFrom n s
  unfolding CanMove
  someone_moves n i none {s} inv q =
      let (k, t) = can_take s.held (Inv.fits inv) in
      move_step n i s (subst (λ p. CanMove s.held s.mem p) (sym q) (k, s.mem, entered, take_lock t))
  someone_moves n i (some j) {s} inv q =
      move_step n j s
        (inside_moves s.held s.mem (s.pcs j) (Inv.fits inv) (Inv.owner_inside inv j refl))

  -- `main` waits for a thread that has been created: it has left, or some thread can move.
  awaited_moves :
      (n i : ℕ) (o : Option ℕ) {s : Threads lock cell} (p : Pc Loaded)
      → Inv lock cell n o s
      → s.pcs i ≡ p
      → p ≢ unborn
      → (p ≡ left) ⊎ StepFrom n s
  awaited_moves n i o unborn inv q b = absurd (b refl)
  awaited_moves n i o outside inv q b = inr (someone_moves n i o inv q)
  awaited_moves n i o left inv q b = inl refl
  awaited_moves n i o {s} entered inv q b = inr (
      move_step n i s (
        inside_moves s.held s.mem (s.pcs i) (inside_taken lock cell i o inv (ap inside q))
          (ap inside q)))
  awaited_moves n i o {s} (loaded l) inv q b = inr (
      move_step n i s (
        inside_moves s.held s.mem (s.pcs i) (inside_taken lock cell i o inv (ap inside q))
          (ap inside q)))
  awaited_moves n i o {s} stored inv q b = inr (
      move_step n i s (
        inside_moves s.held s.mem (s.pcs i) (inside_taken lock cell i o inv (ap inside q))
          (ap inside q)))

  main_steps :
      (n : ℕ) (o : Option ℕ) {s : Threads lock cell} (c : MainPc Memory)
      → Inv lock cell n o s
      → s.main ≡ c
      → MainFits lock cell n s.mem s.pcs c
      → ((m : Memory) × (s.main ≡ printed m)) ⊎ StepFrom n s
  unfolding StepFrom
  main_steps n o {s} (printed m) inv q f = inl (m, q)
  main_steps n o {s} (creating k) inv q f = elim (dec_lt k n) [
    | yes h ↦ inr (_, create q h)
    | no h ↦ inr (_, created_all (q ∙ ap creating (omega (arith, f.0, h))))
  ]
  main_steps n o {s} (joining k) inv q f = elim (dec_lt k n) [
    | yes h ↦ elim (awaited_moves n k o (s.pcs k) inv refl (f.2 k h)) [
      | inl l ↦ inr (_, join q h l)
      | inr st ↦ inr st
    ]
    | no h ↦ inr (_, print_it (q ∙ ap joining (omega (arith, f.0, h))))
  ]

  -- From every reachable state of a program, `main` has printed the counter or some step is possible; and
  -- a state is reached after at most `6 * n + 2` steps, whatever the order in which the threads run.
  pub never_stuck :
      {n : ℕ} {s : Threads lock cell} (r : Reach lock cell n s)
      → (((m : Memory) × (s.main ≡ printed m)) ⊎ ((t : Threads lock cell) × Step lock cell n s t))
        × (steps r ≤ 6 * n + 2)
  unfolding StepFrom
  never_stuck {n} {s} r =
      let (o, inv) = Reach-Inv lock cell r in
      (main_steps n o s.main inv refl (Inv.main_fits inv), omega (arith, steps-work r))

  finish_within :
      (fuel : ℕ) {n : ℕ} {s : Threads lock cell} (r : Reach lock cell n s)
      → work n s ≤ fuel
      → (t : Threads lock cell) × (m : Memory) × Reach lock cell n t × (t.main ≡ printed m)
  finish_within zero {n} {s} r h =
      let (o, inv) = Reach-Inv lock cell r in
      elim (never_stuck r).0 [
        | inl (m, q) ↦ (s, m, r, q)
        | inr (t, st) ↦ absurd (omega (arith, h, step-work n inv st))
      ]
  finish_within (suc fuel) {n} {s} r h =
      let (o, inv) = Reach-Inv lock cell r in
      elim (never_stuck r).0 [
        | inl (m, q) ↦ (s, m, r, q)
        | inr (t, st) ↦ finish_within fuel (next r st) (omega (arith, h, step-work n inv st))
      ]

  -- From every reachable state, the program can be brought to its end, where `main` has printed the
  -- counter, and the printed memory holds `n`.
  pub reaches_its_end :
      {n : ℕ} {s : Threads lock cell} (r : Reach lock cell n s)
      → (t : Threads lock cell) × (m : Memory) × Reach lock cell n t
        × (t.main ≡ printed m)
        × cell.Holds n m
  reaches_its_end {n} {s} r =
      let (t, m, r', q) = finish_within (work n s) r (omega arith) in
      (t, m, r', q, printed_total lock cell r' q)
