-- ===== src/Primes/Loops.antt =====
-- The loops that look for a divisor, in ps/prime.c and thread/prime.c, against divisibility.
use apue_pratice.Prelude.{
  ℕ, zero, suc, ◌+◌, ◌-◌, ◌*◌, ◌/◌, ◌%◌, ◌≤◌, ◌<◌, ◌≡◌, refl, ◌≢◌, ◌↔◌, ◌⊎◌, inl, inr, Bool, true,
  false, arith, ◌==◌, if◌then◌else◌,
}
use Prim.Native.Nat.{◌∣◌}
use native.Mathlib.Decide.{ℕ_discrete}
use native.Mathlib.Nat.{
  dvd_of_mod-eq-zero, mod-eq-zero_of_dvd, le_of_dvd, pos_of_dvd_of_pos, div-add-mod',
}

-- A prime number.
abbrev pub IsPrime : ℕ → Type 0
IsPrime n = (2 ≤ n) × ((d : ℕ) → d ∣ n → (d ≡ 1) ⊎ (d ≡ n))

-- `n` rounds of a loop from `j` on that leaves with 0 at the first divisor of `i`.
unfoldable pub mark_from : ℕ → ℕ → ℕ → Bool
mark_from zero j i = true
mark_from (suc n) j i = let rest = mark_from n (j + 1) i in if i % j == 0 then false else rest

-- The `mark` of a child of ps/prime.c: j runs from 2 while j < i / 2.
abbrev pub process_mark : ℕ → Bool
process_mark i = mark_from (i / 2 - 2) 2 i

-- Whether `routine` of thread/prime.c comes to its `printf`: j runs from 2 while j < i.
abbrev pub thread_mark : ℕ → Bool
thread_mark i = mark_from (i - 2) 2 i

NoDivisor : ℕ → ℕ → ℕ → Type 0
NoDivisor j k i = (d : ℕ) → j ≤ d → d < k → i % d ≢ 0

mark_from-true : (n j i : ℕ) → mark_from n j i ≡ true → NoDivisor j (j + n) i
unfolding mark_from NoDivisor
mark_from-true zero j i h d l u z = omega (arith, l, u)
mark_from-true (suc n) j i h d l u z = elim (ℕ_discrete j d) [
  | yes e ↦ ground (arith, h, e, z)
  | no e ↦
      mark_from-true n (j + 1) i (ground (arith, h)) d (omega (arith, l, e)) (omega (arith, u)) z
]

true-mark_from : (n j i : ℕ) → NoDivisor j (j + n) i → mark_from n j i ≡ true
unfolding mark_from NoDivisor
true-mark_from zero j i h = refl
true-mark_from (suc n) j i h =
    let rest : mark_from n (j + 1) i ≡ true =
      true-mark_from n (j + 1) i (λ d l u. h d (omega (arith, l)) (omega (arith, u))) in
    let this : i % j ≢ 0 = h j (omega arith) (omega arith) in ground (arith, rest, this)

-- A prime has no divisor between 2 and itself.
prime_undivided : (i k : ℕ) → k ≤ i → IsPrime i → NoDivisor 2 k i
unfolding NoDivisor
prime_undivided i k b p d l u z = elim (p.1 d (dvd_of_mod-eq-zero d z)) [
  | inl e ↦ omega (arith, e, l)
  | inr e ↦ omega (arith, e, u, b)
]

-- A divisor that is neither 1 nor the number lies strictly between.
inner_divisor : (i d : ℕ) → 0 < i → d ∣ i → (d ≡ 1) ⊎ (d ≡ i) ⊎ ((2 ≤ d) × (d < i))
inner_divisor i d b dv =
    let low : d ≤ i = le_of_dvd b dv in
    let pos_d : 0 < d = pos_of_dvd_of_pos dv b in
    elim (ℕ_discrete d 1) [
      | yes e ↦ inl e
      | no n ↦ elim (ℕ_discrete d i) [
        | yes e ↦ inr (inl e)
        | no m ↦ inr (inr (omega (arith, n, pos_d), omega (arith, m, low)))
      ]
    ]

by_factor :
    (i d q : ℕ)
    → 4 < i
    → 2 ≤ d
    → d < i
    → q * d ≡ i
    → i % d ≡ 0
    → (e : ℕ) × (2 ≤ e) × (e < i / 2) × (i % e ≡ 0)
by_factor i d zero b l u w z = absurd (omega (arith, b, w))
by_factor i d (suc zero) b l u w z = absurd (omega (arith, u, w))
by_factor i d (suc (suc zero)) b l u w z = (2, omega arith, omega (arith, w, b), omega (arith, w))
by_factor i d (suc (suc (suc q))) b l u w z = (d, l, below_half, z)
  where
    below_half : d < i / 2
    below_half = grind (arith, b, l, w)

-- A number above 4 with a divisor inside has one below its half.
half_divisor :
    (i d : ℕ) → 4 < i → d ∣ i → 2 ≤ d → d < i → (e : ℕ) × (2 ≤ e) × (e < i / 2) × (i % e ≡ 0)
half_divisor i d b dv l u =
    by_factor i d (i / d) b l u (omega (arith, div-add-mod' i d, mod-eq-zero_of_dvd d dv))
      (mod-eq-zero_of_dvd d dv)

-- The loop of thread/prime.c prints a number from 2 on exactly when it is prime.
pub thread_mark-IsPrime : (i : ℕ) → 2 ≤ i → (thread_mark i ≡ true) ↔ IsPrime i
unfolding NoDivisor
thread_mark-IsPrime i b = (
  λ h. (
    b,
    λ d dv. elim (inner_divisor i d (omega (arith, b)) dv) [
      | inl e ↦ inl e
      | inr (inl e) ↦ inr e
      | inr (inr (l, u)) ↦
          absurd (mark_from-true (i - 2) 2 i h d l (omega (arith, u, b)) (mod-eq-zero_of_dvd d dv))
    ],
  ),
  λ p. true-mark_from (i - 2) 2 i (prime_undivided i (2 + (i - 2)) (omega (arith, b)) p),
)

-- The loop of ps/prime.c prints a number above 4 exactly when it is prime.
pub process_mark-IsPrime : (i : ℕ) → 4 < i → (process_mark i ≡ true) ↔ IsPrime i
unfolding NoDivisor
process_mark-IsPrime i b = (
  λ h. (
    omega (arith, b),
    λ d dv. elim (inner_divisor i d (omega (arith, b)) dv) [
      | inl e ↦ inl e
      | inr (inl e) ↦ inr e
      | inr (inr (l, u)) ↦
          let (e, le, ue, z) = half_divisor i d b dv l u in
          absurd (mark_from-true (i / 2 - 2) 2 i h e le (omega (arith, le, ue)) z)
    ],
  ),
  λ p. true-mark_from (i / 2 - 2) 2 i (prime_undivided i (2 + (i / 2 - 2)) (omega (arith, b)) p),
)
