-- ===== src/Slots.antt =====
-- Fixed arrays of pointers to heap blocks, such as `jobs` of signal/mytbf.c and `tasks` of
-- signal/anytimer.c: every block belongs to one slot, and a slot may be NULL or point at a block that
-- has been freed.
pub mod First
pub mod Placed
use apue_pratice.Prelude.{
  ℕ, zero, suc, ◌+◌, ◌≤◌, ◌<◌, ◌≡◌, refl, ◌≢◌, List, [], ◌∷◌, Option, none, some, arith, length,
  get_elem?, set,
}
use apue_pratice.Prelude.Int.{ℤ, pos, negsuc}
use apue_pratice.Prelude.Outcome.{Outcome, done, fault}

pub data Slot {ℓ} (A : Type ℓ) : Type ℓ where
  null : Slot A
  live : A → Slot A
  dangling : Slot A

module _ {ℓ} {A : Type ℓ} where
  -- `a[id]` as a pointer; an index outside of the array is undefined.
  abbrev pub slot : List (Slot A) → ℤ → Outcome (Slot A)
  slot xs (negsuc _) = fault
  slot xs (pos i) = elim (get_elem? xs i) [ none ↦ fault | some s ↦ done s ]

  -- `*a[id]`: NULL and a freed block must not be read.
  abbrev pub deref : List (Slot A) → ℤ → Outcome A
  deref xs (negsuc _) = fault
  deref xs (pos i) = elim (get_elem? xs i) [
    | some (live a) ↦ done a
    | some null ↦ fault
    | some dangling ↦ fault
    | none ↦ fault
  ]

  -- `a[id] = p`
  abbrev pub put : List (Slot A) → ℤ → Slot A → List (Slot A)
  put xs (negsuc _) s = xs
  put xs (pos i) s = set xs i s

  -- The loop that returns the first index, from `i` on, whose pointer is NULL, and -1 if none is.
  unfoldable pub first_null : ℕ → List (Slot A) → ℤ
  first_null i [] = negsuc 0
  first_null i (null ∷ xs) = pos i
  first_null i (live _ ∷ xs) = first_null (i + 1) xs
  first_null i (dangling ∷ xs) = first_null (i + 1) xs

  -- How many slots hold a block that has not been freed.
  unfoldable pub count_live : List (Slot A) → ℕ
  count_live [] = 0
  count_live (null ∷ xs) = count_live xs
  count_live (live _ ∷ xs) = suc (count_live xs)
  count_live (dangling ∷ xs) = count_live xs
