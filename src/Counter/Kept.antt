-- ===== src/Counter/Kept.antt =====
-- The invariant of `Counter/Invariant.antt` is kept by every step of a program, and what it says at the end.
use native.Mathlib.Decide.{ℕ_discrete}
use mathlib.Core.Path.{subst}
use apue_pratice.Prelude.{
  ℕ, suc, ◌<◌, ◌≡◌, refl, sym, ap, ◌≢◌, true, false, Option, none, some, arith,
}
use apue_pratice.Thread.Family.{sum_below-zero, sum_below-ones}
use apue_pratice.Counter.Model.{
  Lock, Cell, Pc, unborn, outside, left, MainPc, creating, joining, printed, Threads, Step,
  by_thread, create, created_all, join, print_it, Reach, start, next,
}
use apue_pratice.Counter.Invariant.{inside, added_by, MainFits, added, Inv, Move-Inv, same_count}

module _ (lock : Lock) (cell : Cell) where
  open lock use {LockState, at_first, IsFree, IsTaken, at_first-IsFree}
  open cell use {Memory, Loaded, empty, load, Holds, holds_empty}

  -- A step of `main` alone.
  main_moves :
      {n : ℕ} {o : Option ℕ} {s : Threads lock cell} {c : MainPc Memory}
      → Inv lock cell n o s
      → MainFits lock cell n s.mem s.pcs c
      → Inv lock cell n o (record s { main = c })
  main_moves inv f = record {
    fits = Inv.fits inv;
    insider = Inv.insider inv;
    owner_inside = Inv.owner_inside inv;
    fresh = Inv.fresh inv;
    holds = Inv.holds inv;
    born = Inv.born inv;
    main_fits = f;
  }

  pub step-Inv :
      (n : ℕ) {o : Option ℕ} {s t : Threads lock cell}
      → Inv lock cell n o s
      → Step lock cell n s t
      → (o' : Option ℕ) × Inv lock cell n o' t
  step-Inv n {o} {s} inv (by_thread i mv) = Move-Inv lock cell n i inv mv refl
  step-Inv n {o} {s} inv (create {i} q h) =
      let fits_main : MainFits lock cell n s.mem s.pcs (creating i) =
        subst (λ c. MainFits lock cell n s.mem s.pcs c) q (Inv.main_fits inv) in
      let fresh_thread : s.pcs i ≡ unborn = fits_main.1 i (ground arith) in
      (
        o,
        record {
          fits = Inv.fits inv;
          insider = λ j r. ground (arith, Inv.insider inv j);
          owner_inside = λ j r. ground (arith, Inv.owner_inside inv j);
          fresh = λ j l r. ground (arith, Inv.fresh inv j l);
          holds = same_count lock cell n i s.mem outside s.pcs h (ground arith) (Inv.holds inv);
          born = λ j r. ground (arith, Inv.born inv j, h);
          main_fits =
              (h, λ j le. ground (arith, fits_main.1 j), λ j lt. ground (arith, fits_main.2 j));
        },
      )
  step-Inv n {o} {s} inv (created_all q) =
      let fits_main : MainFits lock cell n s.mem s.pcs (creating n) =
        subst (λ c. MainFits lock cell n s.mem s.pcs c) q (Inv.main_fits inv) in
      (o, main_moves inv (ground arith, λ j lt. absurd (omega (arith, lt)), fits_main.2))
  step-Inv n {o} {s} inv (join {i} q h l) =
      let fits_main : MainFits lock cell n s.mem s.pcs (joining i) =
        subst (λ c. MainFits lock cell n s.mem s.pcs c) q (Inv.main_fits inv) in
      let left_below : (j : ℕ) → j < suc i → s.pcs j ≡ left = λ j lt. elim (ℕ_discrete j i) [
        | yes same ↦ rw same l
        | no other ↦ fits_main.1 j (omega (arith, lt, other))
      ] in
      (o, main_moves inv (h, left_below, fits_main.2))
  step-Inv n {o} {s} inv (print_it q) =
      let fits_main : MainFits lock cell n s.mem s.pcs (joining n) =
        subst (λ c. MainFits lock cell n s.mem s.pcs c) q (Inv.main_fits inv) in
      (o, main_moves inv (refl, fits_main.1))

  pub added-start : (n : ℕ) → added lock cell n (λ _. unborn) ≡ 0
  unfolding added
  added-start n = sum_below-zero added_by n (λ _. unborn) (λ i. refl)

  -- Every reachable state meets the invariant, for some owner of the lock.
  pub Reach-Inv :
      {n : ℕ} {s : Threads lock cell} → Reach lock cell n s → (o : Option ℕ) × Inv lock cell n o s
  unfolding added
  Reach-Inv {n} start = (
    none,
    record {
      fits = at_first-IsFree;
      insider = λ i q. cc;
      owner_inside = λ i q. cc;
      fresh = λ i l q. cc;
      holds = subst (λ k. Holds k empty) (sym (added-start n)) holds_empty;
      born = λ i q. absurd (q refl);
      main_fits = (ground arith, λ j le. refl, λ j lt. absurd (omega (arith, lt)));
    },
  )
  Reach-Inv {n} (next r st) = let (o, inv) = Reach-Inv r in step-Inv n inv st

  added-all :
      (k : ℕ) (pcs : ℕ → Pc Loaded) → ((j : ℕ) → j < k → pcs j ≡ left) → added lock cell k pcs ≡ k
  unfolding added
  added-all k pcs h = sum_below-ones added_by k pcs (λ i lt. ap added_by (h i lt))

  -- When every thread has left, every thread has added one.
  pub left_total :
      {n : ℕ} {s : Threads lock cell}
      → Reach lock cell n s
      → ((j : ℕ) → j < n → s.pcs j ≡ left)
      → Holds n s.mem
  left_total {n} {s} r all =
      let (o, inv) = Reach-Inv r in
      subst (λ k. Holds k s.mem) (added-all n s.pcs all) (Inv.holds inv)

  -- When `main` has printed the counter, every thread has added one.
  pub printed_total :
      {n : ℕ} {s : Threads lock cell} {m : Memory}
      → Reach lock cell n s
      → s.main ≡ printed m
      → Holds n m
  printed_total {n} {s} {m} r q =
      let (o, inv) = Reach-Inv r in
      let all_left : MainFits lock cell n s.mem s.pcs (printed m) =
        subst (λ c. MainFits lock cell n s.mem s.pcs c) q (Inv.main_fits inv) in
      subst (λ x. Holds n x) (sym all_left.0) (left_total r all_left.1)

  pub inside_taken :
      {n : ℕ} (i : ℕ) (o : Option ℕ) {s : Threads lock cell}
      → Inv lock cell n o s
      → inside (s.pcs i) ≡ true
      → IsTaken s.held
  inside_taken i none inv q = absurd (let no : none ≢ some i = λ e. cc in no (Inv.insider inv i q))
  inside_taken i (some j) inv q = Inv.fits inv

  pub nobody_free :
      {n : ℕ} (o : Option ℕ) {s : Threads lock cell}
      → Inv lock cell n o s
      → ((i : ℕ) → inside (s.pcs i) ≡ false)
      → IsFree s.held
  nobody_free none inv h = Inv.fits inv
  nobody_free (some i) inv h = absurd (ground (arith, Inv.owner_inside inv i refl, h i))
