-- ===== src/Thread/Family.antt =====
-- Arrays and families of threads as functions of the index: a change at one index, and sums over the
-- first indices.
use native.Mathlib.Decide.{dec_lt, ℕ_discrete}
use apue_pratice.Prelude.{ℕ, zero, suc, ◌+◌, ◌*◌, ◌≤◌, ◌<◌, ◌≡◌, refl, arith}
use mathlib.Core.Logic.{ite}

abbrev pub change {ℓ} : {A : Type ℓ} → ℕ → A → (ℕ → A) → ℕ → A
change k a f j = ite (ℕ_discrete k j) a (f j)

module _ {ℓ} {A : Type ℓ} (weight : A → ℕ) where
  -- The weights of the first `n` members, added.
  pub sum_below : ℕ → (ℕ → A) → ℕ
  sum_below zero f = 0
  sum_below (suc n) f = weight (f n) + sum_below n f

  sum_below-change_above :
      (n k : ℕ) (a : A) (f : ℕ → A) → n ≤ k → sum_below n (change k a f) ≡ sum_below n f
  unfolding sum_below
  sum_below-change_above zero k a f h = refl
  sum_below-change_above (suc n) k a f h = ground (arith, sum_below-change_above n k a f)

  -- A change below `n` replaces one weight.
  pub sum_below-change :
      (n k : ℕ) (a : A) (f : ℕ → A)
      → k < n
      → sum_below n (change k a f) + weight (f k) ≡ sum_below n f + weight a
  unfolding sum_below
  sum_below-change zero k a f h = absurd (omega arith)
  sum_below-change (suc n) k a f h = elim (dec_lt k n) [
    | yes lower ↦ ground (arith, sum_below-change n k a f lower)
    | no top ↦ ground (arith, sum_below-change_above n k a f)
  ]

  pub sum_below-zero : (n : ℕ) (f : ℕ → A) → ((i : ℕ) → weight (f i) ≡ 0) → sum_below n f ≡ 0
  unfolding sum_below
  sum_below-zero zero f h = refl
  sum_below-zero (suc n) f h = omega (arith, h n, sum_below-zero n f h)

  -- Families with the same weights have the same sum.
  pub sum_below-cong :
      (n : ℕ) (f g : ℕ → A)
      → ((i : ℕ) → weight (f i) ≡ weight (g i))
      → sum_below n f ≡ sum_below n g
  unfolding sum_below
  sum_below-cong zero f g h = refl
  sum_below-cong (suc n) f g h = omega (arith, h n, sum_below-cong n f g h)

  pub sum_below-ones :
      (n : ℕ) (f : ℕ → A) → ((i : ℕ) → i < n → weight (f i) ≡ 1) → sum_below n f ≡ n
  unfolding sum_below
  sum_below-ones zero f h = refl
  sum_below-ones (suc n) f h =
      ground (arith, h n, sum_below-ones n f (λ i lt. h i (omega (arith, lt))))

  -- Members of the same weight.
  pub sum_below-same : (c n : ℕ) (f : ℕ → A) → ((i : ℕ) → weight (f i) ≡ c) → sum_below n f ≡ c * n
  unfolding sum_below
  sum_below-same c zero f h = omega arith
  sum_below-same c (suc n) f h = omega (arith, h n, sum_below-same c n f h)
