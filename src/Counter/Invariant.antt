-- ===== src/Counter/Invariant.antt =====
-- Who is inside the lock, and how far the counter is, in a program of `Counter/Model.antt`: the invariant, and that
-- a step of a thread keeps it.
use mathlib.Core.Path.{subst}
use apue_pratice.Prelude.{
  ℕ, suc, ◌+◌, ◌≤◌, ◌<◌, ◌≡◌, refl, sym, ◌≢◌, Bool, true, false, Option, none, some, arith,
}
use apue_pratice.Thread.Family.{change, sum_below, sum_below-change}
use apue_pratice.Counter.Model.{
  Lock, Cell, Pc, unborn, entered, loaded, stored, left, MainPc, creating, joining, printed,
  Threads, Move, take_lock, load_it, store_it, give_lock,
}

-- The thread holds the lock.
abbrev pub inside : {L : Type 0} → Pc L → Bool
inside entered = true
inside (loaded _) = true
inside stored = true
inside _ = false

-- How often the thread has added one.
abbrev pub added_by : {L : Type 0} → Pc L → ℕ
added_by stored = 1
added_by left = 1
added_by _ = 0

module _ (lock : Lock) (cell : Cell) where
  open lock use {
    LockState, at_first, Takes, Gives, IsFree, IsTaken, at_first-IsFree, takes_free, takes_taken,
    gives_taken,
  }
  open cell use {Memory, Loaded, empty, load, store, Holds, holds_empty, holds_store}

  abbrev pub LockFits : Option ℕ → LockState → Type 0
  LockFits none s = IsFree s
  LockFits (some i) s = IsTaken s

  -- What the stage of `main` says of the threads.
  abbrev pub MainFits : ℕ → Memory → (ℕ → Pc Loaded) → MainPc Memory → Type 0
  MainFits n m pcs (creating k) =
      (k ≤ n) × ((j : ℕ) → k ≤ j → pcs j ≡ unborn) × ((j : ℕ) → j < k → pcs j ≢ unborn)
  MainFits n m pcs (joining k) =
      (k ≤ n) × ((j : ℕ) → j < k → pcs j ≡ left) × ((j : ℕ) → j < n → pcs j ≢ unborn)
  MainFits n m pcs (printed m') = (m' ≡ m) × ((j : ℕ) → j < n → pcs j ≡ left)

  -- The number of threads that have added one.
  unfoldable pub added : ℕ → (ℕ → Pc Loaded) → ℕ
  added n pcs = sum_below added_by n pcs

  pub record Inv (n : ℕ) (o : Option ℕ) (s : Threads lock cell) : Type 0 where
    pub fits : LockFits o s.held
    pub insider : (i : ℕ) → inside (s.pcs i) ≡ true → o ≡ some i
    pub owner_inside : (i : ℕ) → o ≡ some i → inside (s.pcs i) ≡ true
    pub fresh : (i : ℕ) (l : Loaded) → s.pcs i ≡ loaded l → l ≡ load s.mem
    pub holds : Holds (added n s.pcs) s.mem
    pub born : (i : ℕ) → s.pcs i ≢ unborn → i < n
    pub main_fits : MainFits n s.mem s.pcs s.main

  pub added-change :
      (n i : ℕ) (p : Pc Loaded) (pcs : ℕ → Pc Loaded)
      → i < n
      → added n (change i p pcs) + added_by (pcs i) ≡ added n pcs + added_by p
  unfolding added
  added-change n i p pcs h = sum_below-change added_by n i p pcs h

  -- The stage of `main` does not depend on a thread that moves.
  move-MainFits :
      (n i : ℕ) (m m' : Memory) (p' : Pc Loaded) (pcs : ℕ → Pc Loaded) (main : MainPc Memory)
      → pcs i ≢ unborn
      → pcs i ≢ left
      → p' ≢ unborn
      → i < n
      → MainFits n m pcs main
      → MainFits n m' (change i p' pcs) main
  move-MainFits n i m m' p' pcs (creating k) u l v h f =
      (f.0, λ j le. ground (arith, f.1 j, f.1 i), λ j lt. ground (arith, f.2 j))
  move-MainFits n i m m' p' pcs (joining k) u l v h f =
      (f.0, λ j lt. ground (arith, f.1 j, f.1 i), λ j lt. ground (arith, f.2 j))
  move-MainFits n i m m' p' pcs (printed m₁) u l v h f = absurd (l (f.1 i h))

  owner_none : (o : Option ℕ) (k k' : LockState) → LockFits o k → Takes k k' → o ≡ none
  owner_none none k k' f t = refl
  owner_none (some i) k k' f t = absurd (takes_taken k k' f t)

  -- A thread that moves without a store leaves the count.
  pub same_count :
      (n i : ℕ) (m : Memory) (p : Pc Loaded) (pcs : ℕ → Pc Loaded)
      → i < n
      → added_by p ≡ added_by (pcs i)
      → Holds (added n pcs) m
      → Holds (added n (change i p pcs)) m
  same_count n i m p pcs h e =
      subst (λ k. Holds k m)
        (let same : added n pcs ≡ added n (change i p pcs) =
            omega (arith, added-change n i p pcs h) in
          same)

  pub Move-Inv :
      (n i : ℕ) {o : Option ℕ} {s : Threads lock cell} {k' : LockState} {m' : Memory}
      {p p' : Pc Loaded}
      → Inv n o s
      → Move lock cell s.held s.mem p k' m' p'
      → s.pcs i ≡ p
      → (o' : Option ℕ) × Inv n o'
          (record { held = k'; mem = m'; pcs = change i p' s.pcs; main = s.main })
  Move-Inv n i {o} {s} {k'} inv (take_lock t) e =
      let nobody : o ≡ none = owner_none o s.held k' (Inv.fits inv) t in
      let below : i < n = Inv.born inv i (λ q. cc) in
      (
        some i,
        record {
          fits = takes_free s.held k' (subst (λ x. LockFits x s.held) nobody (Inv.fits inv)) t;
          insider = λ j q. ground (arith, Inv.insider inv j);
          owner_inside = λ j q. ground arith;
          fresh = λ j l q. ground (arith, Inv.fresh inv j l);
          holds = same_count n i s.mem entered s.pcs below (ground arith) (Inv.holds inv);
          born = λ j q. ground (arith, Inv.born inv j, below);
          main_fits =
              move-MainFits n i s.mem s.mem entered s.pcs s.main (λ q. cc) (λ q. cc) (λ q. cc) below
                (Inv.main_fits inv);
        },
      )
  Move-Inv n i {o} {s} inv load_it e =
      let below : i < n = Inv.born inv i (λ q. cc) in
      (
        o,
        record {
          fits = Inv.fits inv;
          insider = λ j q. ground (arith, Inv.insider inv j, Inv.insider inv i);
          owner_inside = λ j q. ground (arith, Inv.owner_inside inv j);
          fresh = λ j l q. ground (arith, Inv.fresh inv j l);
          holds =
              same_count n i s.mem (loaded (load s.mem)) s.pcs below (ground arith) (Inv.holds inv);
          born = λ j q. ground (arith, Inv.born inv j, below);
          main_fits =
              move-MainFits n i s.mem s.mem (loaded (load s.mem)) s.pcs s.main (λ q. cc) (λ q. cc)
                (λ q. cc) below (Inv.main_fits inv);
        },
      )
  Move-Inv n i {o} {s} inv (store_it {l}) e =
      let below : i < n = Inv.born inv i (λ q. cc) in
      let current : load s.mem ≡ l = sym (Inv.fresh inv i l e) in
      let one_more : suc (added n s.pcs) ≡ added n (change i stored s.pcs) =
        ground (arith, added-change n i stored s.pcs below) in
      (
        o,
        record {
          fits = Inv.fits inv;
          insider = λ j q. ground (arith, Inv.insider inv j, Inv.insider inv i);
          owner_inside = λ j q. ground (arith, Inv.owner_inside inv j);
          fresh = λ j l' q. ground (arith, Inv.insider inv j, Inv.insider inv i);
          holds =
              subst (λ x. Holds (added n (change i stored s.pcs)) (store x s.mem)) current
                (subst (λ k. Holds k (store (load s.mem) s.mem)) one_more
                  (holds_store (added n s.pcs) s.mem (Inv.holds inv)));
          born = λ j q. ground (arith, Inv.born inv j, below);
          main_fits =
              move-MainFits n i s.mem (store l s.mem) stored s.pcs s.main (λ q. cc) (λ q. cc)
                (λ q. cc) below (Inv.main_fits inv);
        },
      )
  Move-Inv n i {o} {s} {k'} inv (give_lock t) e =
      let mine : o ≡ some i = Inv.insider inv i (ground arith) in
      let below : i < n = Inv.born inv i (λ q. cc) in
      (
        none,
        record {
          fits = gives_taken s.held k' (subst (λ x. LockFits x s.held) mine (Inv.fits inv)) t;
          insider = λ j q. ground (arith, Inv.insider inv j);
          owner_inside = λ j q. cc;
          fresh = λ j l q. ground (arith, Inv.fresh inv j l);
          holds = same_count n i s.mem left s.pcs below (ground arith) (Inv.holds inv);
          born = λ j q. ground (arith, Inv.born inv j, below);
          main_fits =
              move-MainFits n i s.mem s.mem left s.pcs s.main (λ q. cc) (λ q. cc) (λ q. cc) below
                (Inv.main_fits inv);
        },
      )
