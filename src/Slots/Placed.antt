-- ===== src/Slots/Placed.antt =====
-- Blocks that know the index of their slot, as `pos` of `struct mytbf_st` and `struct task` does.
use apue_pratice.Prelude.{
  ℕ, zero, suc, ◌+◌, ◌≡◌, some, List, [], ◌∷◌, arith, get_elem?, set, replicate,
}
use apue_pratice.Prelude.Int.{ℤ, pos}
use apue_pratice.Slots.{Slot, null, live, dangling}

module _ {ℓ} {A : Type ℓ} (place : A → ℤ) where
  -- From index `i` on, a block knows its position, and no slot points at a freed block.
  abbrev pub IsPlaced : ℕ → List (Slot A) → Type 0
  IsPlaced i [] = Unit
  IsPlaced i (null ∷ xs) = IsPlaced (i + 1) xs
  IsPlaced i (live t ∷ xs) = (place t ≡ pos i) × IsPlaced (i + 1) xs
  IsPlaced i (dangling ∷ xs) = ⊥

  pub IsPlaced-get :
      (i n : ℕ) (xs : List (Slot A)) {t : A}
      → IsPlaced i xs
      → get_elem? xs n ≡ some (live t)
      → place t ≡ pos (i + n)
  IsPlaced-get i n [] h q = cc
  IsPlaced-get i zero (null ∷ xs) h q = cc
  IsPlaced-get i zero (live u ∷ xs) h q = ground arith
  IsPlaced-get i zero (dangling ∷ xs) h q = absurd h
  IsPlaced-get i (suc n) (null ∷ xs) h q = ground (arith, IsPlaced-get (i + 1) n xs h q)
  IsPlaced-get i (suc n) (live u ∷ xs) h q = ground (arith, IsPlaced-get (i + 1) n xs h.1 q)
  IsPlaced-get i (suc n) (dangling ∷ xs) h q = absurd h

  pub IsPlaced-set_live :
      (i n : ℕ) (xs : List (Slot A)) (t : A)
      → place t ≡ pos (i + n)
      → IsPlaced i xs
      → IsPlaced i (set xs n (live t))
  IsPlaced-set_live i n [] t e h = tt
  IsPlaced-set_live i zero (null ∷ xs) t e h = (ground arith, h)
  IsPlaced-set_live i zero (live u ∷ xs) t e h = (ground arith, h.1)
  IsPlaced-set_live i zero (dangling ∷ xs) t e h = absurd h
  IsPlaced-set_live i (suc n) (null ∷ xs) t e h = IsPlaced-set_live (i + 1) n xs t (ground arith) h
  IsPlaced-set_live i (suc n) (live u ∷ xs) t e h =
      (h.0, IsPlaced-set_live (i + 1) n xs t (ground arith) h.1)
  IsPlaced-set_live i (suc n) (dangling ∷ xs) t e h = absurd h

  pub IsPlaced-set_null :
      (i n : ℕ) (xs : List (Slot A)) → IsPlaced i xs → IsPlaced i (set xs n null)
  IsPlaced-set_null i n [] h = tt
  IsPlaced-set_null i zero (null ∷ xs) h = h
  IsPlaced-set_null i zero (live u ∷ xs) h = h.1
  IsPlaced-set_null i zero (dangling ∷ xs) h = absurd h
  IsPlaced-set_null i (suc n) (null ∷ xs) h = IsPlaced-set_null (i + 1) n xs h
  IsPlaced-set_null i (suc n) (live u ∷ xs) h = (h.0, IsPlaced-set_null (i + 1) n xs h.1)
  IsPlaced-set_null i (suc n) (dangling ∷ xs) h = absurd h

  pub nulls-IsPlaced : (i n : ℕ) → IsPlaced i (replicate n null)
  nulls-IsPlaced i zero = tt
  nulls-IsPlaced i (suc n) = nulls-IsPlaced (i + 1) n
