-- ===== src/Signal/Tbf/Table.antt =====
-- The table of jobs: what every call keeps of it.
use apue_pratice.Prelude.Int.{ℤ}
use apue_pratice.Prelude.{ℕ, ◌+◌, ◌≤◌, ◌≡◌, true, List, [], ◌∷◌, arith, length}
use apue_pratice.Prelude.Outcome.{done, >>=-eq-done}
use apue_pratice.Prelude.CInt.{add_int}
use apue_pratice.Slots.Placed.{IsPlaced}
use apue_pratice.Slots.{Slot, null, live, dangling, count_live}
use apue_pratice.Signal.Tbf.{Tbf, Library, library_handler, max_tbf, accrue}

-- The position that a job knows.
abbrev pub place : Tbf → ℤ
place t = t.pos_field

pub record IsValid (s : Library) : Type 0 where
  pub size : length s.jobs ≡ max_tbf
  pub placed : IsPlaced place 0 s.jobs
  pub owned : count_live s.jobs ≤ s.blocks
  pub armed : s.inited ≡ true → s.action ≡ library_handler

-- What an alarm leaves of the table: the same slots, and the same blocks in them.
pub accrue_shape :
    (i : ℕ) (xs : List (Slot Tbf)) {ys : List (Slot Tbf)}
    → accrue xs ≡ done ys
    → IsPlaced place i xs
    → IsPlaced place i ys × (length ys ≡ length xs) × (count_live ys ≡ count_live xs)
unfolding accrue count_live
accrue_shape i [] q h = ground arith
accrue_shape i (null ∷ xs) q h =
    let (rest, e, d) = >>=-eq-done (accrue xs) _ q in ground (arith, accrue_shape (i + 1) xs e h)
accrue_shape i (live t ∷ xs) q h =
    let (earned, e, d) = >>=-eq-done (add_int t.token t.cps) _ q in
    let (rest, e', d') = >>=-eq-done (accrue xs) _ d in
    ground (arith, accrue_shape (i + 1) xs e' h.1)
accrue_shape i (dangling ∷ xs) q h = absurd h
