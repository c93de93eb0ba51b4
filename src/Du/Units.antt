-- ===== src/Du/Units.antt =====
-- The loop of `main` in fs/du.c over the units "bkmg".
use apue_pratice.Prelude.{ℕ, ◌<◌, ◌≡◌, inl, inr, some, arith, ltb, leb, Option-cases}
use apue_pratice.Du.{unit_of}

-- The loop ends for every 64-bit number of bytes, after at most seven divisions by 1024, and the unit is
-- one of the four letters exactly when there are at most 1000 * 1024 ^ 3 bytes; above that the
-- program reads `units` at its terminator or past it.
unit_letters :
    (bytes : ℕ)
    → bytes < 18446744073709551616
    → (u : ℕ) × (unit_of 8 bytes 1 0 ≡ some u) × (ltb u 4 ≡ leb bytes 1073741824000)
unfolding unit_of
unit_letters bytes h = elim (Option-cases (unit_of 8 bytes 1 0)) [
  | inl n ↦ absurd (ground arith)
  | inr r ↦ let (u, e) = r in (u, e, ground arith)
]
