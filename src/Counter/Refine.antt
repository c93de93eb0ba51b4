-- ===== src/Counter/Refine.antt =====
-- A program of `Counter/Model.antt` refines a counter that each thread increments once, in one step.
use mathlib.Core.Path.{subst, fun_ext, ap₂}
use apue_pratice.Prelude.{
  sym, ap, ℕ, suc, ◌<◌, ◌≡◌, refl, ◌⊎◌, inl, inr, Bool, true, false, Option, arith,
}
use apue_pratice.Thread.Family.{change}
use apue_pratice.Counter.Model.{
  start, next, Lock, Cell, Pc, unborn, outside, entered, loaded, stored, left, creating, Threads,
  Move, take_lock, load_it, store_it, give_lock, Step, by_thread, create, created_all, join,
  print_it, Reach,
}
use apue_pratice.Counter.Invariant.{added_by, MainFits, added, Inv, added-change}
use apue_pratice.Counter.Kept.{added-start, step-Inv, Reach-Inv}

-- The abstract counter: its value, and which threads have added one.
pub record Atomic : Type 0 where
  pub value : ℕ
  pub finished : ℕ → Bool

-- Its one operation, by a thread that has not added yet.
pub data Increment (n : ℕ) (a : Atomic) : Atomic → Type 0 where
  increment :
      (i : ℕ)
      → i < n
      → a.finished i ≡ false
      → Increment n a (record { value = suc a.value; finished = change i true a.finished })

abbrev pub zero_counter : Atomic
zero_counter = record { value = 0; finished = λ _. false }

pub data Increments (n : ℕ) : Atomic → Type 0 where
  none_yet : Increments n zero_counter
  then_one : {a b : Atomic} → Increments n a → Increment n a b → Increments n b

abbrev pub has_added : {L : Type 0} → Pc L → Bool
has_added stored = true
has_added left = true
has_added _ = false

module _ (lock : Lock) (cell : Cell) where
  open cell use {Memory, Loaded, Holds}

  abbrev pub seen : ℕ → (ℕ → Pc Loaded) → Atomic
  seen n pcs = record { value = added lock cell n pcs; finished = λ i. has_added (pcs i) }

  -- What a state of the program looks like from outside.
  abbrev pub view : ℕ → Threads lock cell → Atomic
  view n s = seen n s.pcs

  -- Where a thread moves without a store, nothing is seen.
  seen-quiet :
      (n i : ℕ) (p : Pc Loaded) (pcs : ℕ → Pc Loaded)
      → i < n
      → has_added p ≡ has_added (pcs i)
      → added_by p ≡ added_by (pcs i)
      → seen n (change i p pcs) ≡ seen n pcs
  seen-quiet n i p pcs h f a =
      let count : added lock cell n (change i p pcs) ≡ added lock cell n pcs =
        omega (arith, added-change lock cell n i p pcs h) in
      let each : (λ j. has_added (change i p pcs j)) ≡ (λ j. has_added (pcs j)) =
        fun_ext (λ j. ground arith) in
      ap₂ (λ v g. let a : Atomic = record { value = v; finished = g } in a) count each

  -- A store is the increment of its thread.
  seen-stored :
      (n i : ℕ) (pcs : ℕ → Pc Loaded)
      → i < n
      → has_added (pcs i) ≡ false
      → added_by (pcs i) ≡ 0
      → Increment n (seen n pcs) (seen n (change i stored pcs))
  seen-stored n i pcs h f a =
      let count : suc (added lock cell n pcs) ≡ added lock cell n (change i stored pcs) =
        omega (arith, added-change lock cell n i stored pcs h, a) in
      let each : change i true (λ j. has_added (pcs j)) ≡ (λ j. has_added (change i stored pcs j)) =
        fun_ext (λ j. ground arith) in
      subst (Increment n (seen n pcs))
        (ap₂ (λ v g. let b : Atomic = record { value = v; finished = g } in b) count each)
        (increment i h f)

  Move-refines :
      (n i : ℕ) {o : Option ℕ} {s : Threads lock cell} {k' : lock.LockState} {m' : Memory}
      {p p' : Pc Loaded}
      → Inv lock cell n o s
      → Move lock cell s.held s.mem p k' m' p'
      → s.pcs i ≡ p
      → (seen n (change i p' s.pcs) ≡ view n s)
        ⊎ Increment n (view n s) (seen n (change i p' s.pcs))
  Move-refines n i {s} inv (take_lock t) e =
      inl (seen-quiet n i entered s.pcs (Inv.born inv i (λ q. cc)) (ground arith) (ground arith))
  Move-refines n i {s} inv load_it e = inl (
      seen-quiet n i (loaded (cell.load s.mem)) s.pcs (Inv.born inv i (λ q. cc)) (ground arith)
        (ground arith))
  Move-refines n i {s} inv (store_it {l}) e =
      inr (seen-stored n i s.pcs (Inv.born inv i (λ q. cc)) (ground arith) (ground arith))
  Move-refines n i {s} inv (give_lock t) e =
      inl (seen-quiet n i left s.pcs (Inv.born inv i (λ q. cc)) (ground arith) (ground arith))

  view_step :
      {n : ℕ} {o : Option ℕ} {s t : Threads lock cell}
      → Inv lock cell n o s
      → Step lock cell n s t
      → (view n t ≡ view n s) ⊎ Increment n (view n s) (view n t)
  view_step {n} inv (by_thread i mv) = Move-refines n i inv mv refl
  view_step {n} {s} inv (create {i} q h) =
      let fits_main : MainFits lock cell n s.mem s.pcs (creating i) =
        subst (λ c. MainFits lock cell n s.mem s.pcs c) q (Inv.main_fits inv) in
      let fresh_thread : s.pcs i ≡ unborn = fits_main.1 i (ground arith) in
      inl (seen-quiet n i outside s.pcs h (ground arith) (ground arith))
  view_step inv (created_all q) = inl refl
  view_step inv (join q h l) = inl refl
  view_step inv (print_it q) = inl refl

  -- What is seen of a reachable state is reached by increments.
  Reach-Increments : {n : ℕ} {s : Threads lock cell} → Reach lock cell n s → Increments n (view n s)
  Reach-Increments {n} start =
      subst (Increments n)
        (sym (
          ap (λ v. let a : Atomic = record { value = v; finished = λ _. false } in a)
            (added-start lock cell n)))
        none_yet
  Reach-Increments {n} (next {s = s} r st) =
      let (o, inv) = Reach-Inv lock cell r in
      elim (view_step inv st) [
        | inl same ↦ subst (Increments n) (sym same) (Reach-Increments r)
        | inr one ↦ then_one (Reach-Increments r) one
      ]

  -- A reachable state of a program is seen as a state of the abstract counter, reached from 0 by increments
  -- of different threads; each step from it is seen as one more increment, by a thread that has not
  -- incremented before, or as nothing; and the memory holds the value of the abstract counter before
  -- and after the step.
  pub counter_refines :
      {n : ℕ} {s t : Threads lock cell}
      → Reach lock cell n s
      → Step lock cell n s t
      → Increments n (view n s)
        × Holds (view n s).value s.mem
        × Holds (view n t).value t.mem
        × ((view n t ≡ view n s) ⊎ Increment n (view n s) (view n t))
  counter_refines {n} r st =
      let (o, inv) = Reach-Inv lock cell r in
      let (o', inv') = step-Inv lock cell n inv st in
      (Reach-Increments r, Inv.holds inv, Inv.holds inv', view_step inv st)
