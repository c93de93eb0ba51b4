-- ===== src/Primes/Outputs.antt =====
-- What ps/prime.c and thread/prime.c print: one line for each number that its own child or thread finds
-- prime, in any order.
use apue_pratice.Prelude.{
  ℕ, zero, suc, ◌+◌, ◌-◌, ◌≤◌, ◌<◌, ◌≡◌, refl, sym, ap, ◌∙◌, ◌↔◌, inl, inr, Bool, true, false, List,
  [], ◌∷◌, arith, if◌then◌else◌,
}
use native.Mathlib.Decide.{ℕ_discrete}
use mathlib.Core.Path.{subst}
use mathlib.Core.Logic.{∥∥₁_elim}
use mathlib.Core.List.{
  Mem, mem-cons_self, mem-cons_of_mem, eq-or-mem_of_mem-cons, not-mem-nil, Perm,
}
use native.Mathlib.Bridge.{le_prop}
use mathlib.Core.List.Perm
use apue_pratice.Primes.Loops.{
  IsPrime, process_mark, thread_mark, process_mark-IsPrime, thread_mark-IsPrime,
}

-- The numbers that are printed of `n` numbers from `i` on, in the order in which their children or threads
-- are created.
unfoldable pub marked : (ℕ → Bool) → ℕ → ℕ → List ℕ
marked mark zero i = []
marked mark (suc n) i = let rest = marked mark n (i + 1) in if mark i then i ∷ rest else rest

-- What ps/prime.c can print.
abbrev pub ProcessOutput : List ℕ → Type 0
ProcessOutput out = Perm out (marked process_mark (30000200 + 1 - 30000000) 30000000)

-- What thread/prime.c can print.
abbrev pub ThreadOutput : List ℕ → Type 0
ThreadOutput out = Perm out (marked thread_mark (30200 - 30000 + 1) 30000)

module _ (mark : ℕ → Bool) where
  marked-true : (n i : ℕ) → mark i ≡ true → marked mark (suc n) i ≡ i ∷ marked mark n (i + 1)
  unfolding marked
  marked-true n i e = ground (arith, e)

  marked-false : (n i : ℕ) → mark i ≡ false → marked mark (suc n) i ≡ marked mark n (i + 1)
  unfolding marked
  marked-false n i e = ground (arith, e)

  -- A number is printed as the first one or later.
  mem_marked_suc :
      {P : Type 0} (n i k : ℕ)
      → IsProp P
      → (k ≡ i → mark i ≡ true → P)
      → (Mem k (marked mark n (i + 1)) → P)
      → Mem k (marked mark (suc n) i)
      → P
  mem_marked_suc {P} n i k prop first later m = by_mark (mark i) refl
    where
      by_mark : (b : Bool) → mark i ≡ b → P
      by_mark true e =
          ∥∥₁_elim (eq-or-mem_of_mem-cons (subst (λ l. Mem k l) (marked-true n i e) m)) prop
            (λ c. elim c [ inl q ↦ first q e | inr r ↦ later r ])
      by_mark false e = later (subst (λ l. Mem k l) (marked-false n i e) m)

  mem_marked_first : (n i : ℕ) → mark i ≡ true → Mem i (marked mark (suc n) i)
  mem_marked_first n i e = subst (λ l. Mem i l) (sym (marked-true n i e)) mem-cons_self

  mem_marked_later : (n i k : ℕ) → Mem k (marked mark n (i + 1)) → Mem k (marked mark (suc n) i)
  mem_marked_later n i k r = by_mark (mark i) refl
    where
      by_mark : (b : Bool) → mark i ≡ b → Mem k (marked mark (suc n) i)
      by_mark true e = subst (λ l. Mem k l) (sym (marked-true n i e)) (mem-cons_of_mem i r)
      by_mark false e = subst (λ l. Mem k l) (sym (marked-false n i e)) r

  -- A number is printed exactly when it is one of those tested and its mark is 1.
  mem-marked : (n i k : ℕ) → Mem k (marked mark n i) → (i ≤ k) × (k < i + n) × (mark k ≡ true)
  unfolding marked
  mem-marked zero i k m = absurd (not-mem-nil m)
  mem-marked (suc n) i k m =
      mem_marked_suc n i k (hlevel (le_prop))
        (λ q e. (omega (arith, q), omega (arith, q), ap mark q ∙ e))
        (λ r. let (l, u, t) = mem-marked n (i + 1) k r in (omega (arith, l), omega (arith, u), t)) m

  marked-mem : (n i k : ℕ) → i ≤ k → k < i + n → mark k ≡ true → Mem k (marked mark n i)
  marked-mem zero i k l u t = absurd (omega (arith, l, u))
  marked-mem (suc n) i k l u t = elim (ℕ_discrete k i) [
    | yes e ↦
        subst (λ j. Mem j (marked mark (suc n) i)) (sym e)
          (mem_marked_first n i (ap mark (sym e) ∙ t))
    | no d ↦
        mem_marked_later n i k (marked-mem n (i + 1) k (omega (arith, l, d)) (omega (arith, u)) t)
  ]

-- ps/prime.c prints a number exactly when it is a prime between 30000000 and 30000200, in whatever order
-- its children run.
pub ProcessOutput-primes :
    (out : List ℕ) (k : ℕ)
    → ProcessOutput out
    → Mem k out ↔ ((30000000 ≤ k) × (k ≤ 30000200) × IsPrime k)
ProcessOutput-primes out k o = (
  λ m.
      let (l, u, t) = mem-marked process_mark 201 30000000 k ((Perm.mem_iff o).0 m) in
      (l, omega (arith, u), (process_mark-IsPrime k (omega (arith, l))).0 t),
  λ h. (Perm.mem_iff o).1 (
      marked-mem process_mark 201 30000000 k h.0 (omega (arith, h.1))
        ((process_mark-IsPrime k (omega (arith, h.0))).1 h.2)),
)

-- thread/prime.c prints a number exactly when it is a prime between 30000 and 30200, in whatever order its
-- threads run.
pub ThreadOutput-primes :
    (out : List ℕ) (k : ℕ) → ThreadOutput out → Mem k out ↔ ((30000 ≤ k) × (k ≤ 30200) × IsPrime k)
ThreadOutput-primes out k o = (
  λ m.
      let (l, u, t) = mem-marked thread_mark 201 30000 k ((Perm.mem_iff o).0 m) in
      (l, omega (arith, u), (thread_mark-IsPrime k (omega (arith, l))).0 t),
  λ h. (Perm.mem_iff o).1 (
      marked-mem thread_mark 201 30000 k h.0 (omega (arith, h.1))
        ((thread_mark-IsPrime k (omega (arith, h.0))).1 h.2)),
)
