-- ===== src/Slots/First.antt =====
-- The search for a NULL pointer finds the first one, and the count of blocks under a write.
use apue_pratice.Prelude.{
  ℕ, zero, suc, ◌+◌, ◌<◌, ◌≡◌, refl, ap, ◌≢◌, Option, none, some, List, [], ◌∷◌, arith, length,
  get_elem?, set, replicate, length-replicate,
}
use apue_pratice.Prelude.Int.{ℤ, pos, negsuc}
use apue_pratice.Prelude.Outcome.{Outcome, done, fault}
use apue_pratice.Slots.{Slot, null, live, dangling, slot, deref, first_null, count_live}

pub get_elem?-lt-length {ℓ} :
    {B : Type ℓ} (xs : List B) (i : ℕ) {b : B} → get_elem? xs i ≡ some b → i < length xs
get_elem?-lt-length [] i h = cc
get_elem?-lt-length (x ∷ xs) zero h = omega arith
get_elem?-lt-length (x ∷ xs) (suc i) h = omega (arith, get_elem?-lt-length xs i h)

module _ {ℓ} {A : Type ℓ} where
  -- What a result of the search from index `i` says of the slots.
  abbrev pub IsFirst : ℕ → List (Slot A) → ℤ → Type ℓ
  IsFirst i xs (pos k) =
      (n : ℕ) × (k ≡ i + n)
      × (get_elem? xs n ≡ some null)
      × ((j : ℕ) → j < n → get_elem? xs j ≢ some null)
  IsFirst i xs (negsuc k) = (k ≡ 0) × ((j : ℕ) → get_elem? xs j ≢ some null)

  IsFirst-cons :
      (i : ℕ) (x : Slot A) (xs : List (Slot A)) (r : ℤ)
      → x ≢ null
      → IsFirst (i + 1) xs r
      → IsFirst i (x ∷ xs) r
  IsFirst-cons i x xs (pos k) ne (n, e, found, before) = (suc n, omega arith, found, go)
    where
      go : (j : ℕ) → j < suc n → get_elem? (x ∷ xs) j ≢ some null
      go zero h q = ne (cc)
      go (suc j) h q = before j (omega arith) q
  IsFirst-cons i x xs (negsuc k) ne (e, none_left) = (e, go)
    where
      go : (j : ℕ) → get_elem? (x ∷ xs) j ≢ some null
      go zero q = ne (cc)
      go (suc j) q = none_left j q

  -- The search returns the first NULL slot, or -1 when every slot holds a pointer.
  pub first_null-IsFirst : (i : ℕ) (xs : List (Slot A)) → IsFirst i xs (first_null i xs)
  unfolding first_null
  first_null-IsFirst i [] = (refl, λ j. cc)
  first_null-IsFirst i (null ∷ xs) = (0, omega arith, refl, λ j h. absurd (omega arith))
  first_null-IsFirst i (live a ∷ xs) =
      IsFirst-cons i (live a) xs (first_null (i + 1) xs) (cc) (first_null-IsFirst (i + 1) xs)
  first_null-IsFirst i (dangling ∷ xs) =
      IsFirst-cons i dangling xs (first_null (i + 1) xs) (cc) (first_null-IsFirst (i + 1) xs)

  -- A block put into a NULL slot is one more.
  pub count_live-set_live :
      (xs : List (Slot A)) (i : ℕ) (a : A)
      → get_elem? xs i ≡ some null
      → count_live (set xs i (live a)) ≡ suc (count_live xs)
  unfolding count_live
  count_live-set_live [] i a h = cc
  count_live-set_live (null ∷ xs) zero a h = refl
  count_live-set_live (live b ∷ xs) zero a h = cc
  count_live-set_live (dangling ∷ xs) zero a h = cc
  count_live-set_live (null ∷ xs) (suc i) a h = count_live-set_live xs i a h
  count_live-set_live (live b ∷ xs) (suc i) a h = ap suc (count_live-set_live xs i a h)
  count_live-set_live (dangling ∷ xs) (suc i) a h = count_live-set_live xs i a h

  -- A block taken out of its slot is one less.
  pub count_live-set_null :
      (xs : List (Slot A)) (i : ℕ) {a : A}
      → get_elem? xs i ≡ some (live a)
      → suc (count_live (set xs i null)) ≡ count_live xs
  unfolding count_live
  count_live-set_null [] i h = cc
  count_live-set_null (null ∷ xs) zero h = cc
  count_live-set_null (live b ∷ xs) zero h = refl
  count_live-set_null (dangling ∷ xs) zero h = cc
  count_live-set_null (null ∷ xs) (suc i) h = count_live-set_null xs i h
  count_live-set_null (live b ∷ xs) (suc i) h = ap suc (count_live-set_null xs i h)
  count_live-set_null (dangling ∷ xs) (suc i) h = count_live-set_null xs i h

  -- Writing a block over a block keeps the count.
  pub count_live-set_over :
      (xs : List (Slot A)) (i : ℕ) (b : A) {a : A}
      → get_elem? xs i ≡ some (live a)
      → count_live (set xs i (live b)) ≡ count_live xs
  unfolding count_live
  count_live-set_over [] i b h = cc
  count_live-set_over (null ∷ xs) zero b h = cc
  count_live-set_over (live c ∷ xs) zero b h = refl
  count_live-set_over (dangling ∷ xs) zero b h = cc
  count_live-set_over (null ∷ xs) (suc i) b h = count_live-set_over xs i b h
  count_live-set_over (live c ∷ xs) (suc i) b h = ap suc (count_live-set_over xs i b h)
  count_live-set_over (dangling ∷ xs) (suc i) b h = count_live-set_over xs i b h

  pub deref-eq-done :
      (xs : List (Slot A)) (i : ℕ) {a : A}
      → deref xs (pos i) ≡ done a
      → get_elem? xs i ≡ some (live a)
  deref-eq-done xs i h = go (get_elem? xs i) h
    where
      go :
          (o : Option (Slot A)) {a : A}
          → (let r : Outcome A = elim o [
            | some (live b) ↦ done b
            | some null ↦ fault
            | some dangling ↦ fault
            | none ↦ fault
          ] in
              r)
            ≡ done a
          → o ≡ some (live a)
      go none h = cc
      go (some null) h = cc
      go (some dangling) h = cc
      go (some (live b)) h = cc

  pub deref_live :
      (xs : List (Slot A)) (i : ℕ) {a : A}
      → get_elem? xs i ≡ some (live a)
      → deref xs (pos i) ≡ done a
  deref_live xs i h = rw (h, deref)

-- Of two writes to one index the second one stays.
pub set-set {ℓ} : {B : Type ℓ} (xs : List B) (i : ℕ) (a b : B) → set (set xs i a) i b ≡ set xs i b
set-set [] i a b = refl
set-set (x ∷ xs) zero a b = refl
set-set (x ∷ xs) (suc i) a b = ap (λ r. x ∷ r) (set-set xs i a b)

-- Writing what is there changes nothing.
pub set_same {ℓ} :
    {B : Type ℓ} (xs : List B) (i : ℕ) {b : B} → get_elem? xs i ≡ some b → set xs i b ≡ xs
set_same [] i h = cc
set_same (x ∷ xs) zero h = cc
set_same (x ∷ xs) (suc i) h = ap (λ r. x ∷ r) (set_same xs i h)

pub slot_held {ℓ} :
    {A : Type ℓ} (xs : List (Slot A)) (i : ℕ) {v : Slot A}
    → get_elem? xs i ≡ some v
    → slot xs (pos i) ≡ done v
slot_held xs i h = rw (h, slot)

pub nulls_none_live {ℓ} : (A : Type ℓ) (n : ℕ) → count_live {A = A} (replicate n null) ≡ 0
unfolding count_live
nulls_none_live A zero = refl
nulls_none_live A (suc n) = nulls_none_live A n

pub nulls_length {ℓ} : (A : Type ℓ) (n : ℕ) → length {A = Slot A} (replicate n null) ≡ n
nulls_length A n = length-replicate n null

pub slot-eq-done {ℓ} :
    {A : Type ℓ} (xs : List (Slot A)) (i : ℕ) {v : Slot A}
    → slot xs (pos i) ≡ done v
    → get_elem? xs i ≡ some v
slot-eq-done {A} xs i {v} h = go (get_elem? xs i) h
  where
    go :
        (o : Option (Slot A))
        → (let r : Outcome (Slot A) = elim o [ none ↦ fault | some s ↦ done s ] in r) ≡ done v
        → o ≡ some v
    go none h = cc
    go (some s) h = cc
