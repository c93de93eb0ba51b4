-- ===== src/Signal/Tbf/Reuse.antt =====
-- Tokens given back, positions given back, and the library unloaded (signal/mytbf.c).
use Prim.Native.Nat.{min}
use native.Mathlib.Decide.{dec_lt}
use apue_pratice.Prelude.{
  ◌≢◌, ℕ, zero, suc, ◌-◌, ◌^◌, ◌≤◌, ◌<◌, ◌≡◌, refl, ◌⊎◌, inl, inr, true, false, some, List, [], ◌∷◌,
  arith, get_elem?, set, get_elem?-set_self,
}
use apue_pratice.Prelude.Int.{ℤ, pos, negsuc, ◌+ℤ◌, ◌-ℤ◌, ◌≤ℤ◌}
use apue_pratice.Prelude.Outcome.{done, fault, ◌>>=◌, >>=-eq-done}
use apue_pratice.Prelude.CInt.{fits, add_int, min_int, add_int-done, add_int-eq}
use apue_pratice.Slots.{Slot, null, live, dangling, deref, count_live}
use apue_pratice.Signal.Tbf.{
  Tbf, Library, default_action, library_handler, accrue, handle, free_all, restored, mytbf_unload,
  mytbf_init, mytbf_returntoken, await, mytbf_fetchtoken, mytbf_destroy,
}
use apue_pratice.Slots.First.{get_elem?-lt-length, deref_live, set-set, set_same}
use apue_pratice.Signal.Tbf.Table.{IsValid}
use apue_pratice.Signal.Tbf.Alarms.{await_full}
use apue_pratice.Signal.Tbf.Calls.{destroy_lem, Initialised, init_result}
use apue_pratice.Signal.Tbf.Buckets.{take_tokens-done}

-- Giving tokens back to a job, where no overflow comes, returns their number, and the bucket then
-- holds the smaller of `burst` and all its tokens.
return_caps :
    (i : ℕ) (n : ℤ) (s : Library) (p : Tbf) {r : ℤ} {t : Library}
    → get_elem? s.jobs i ≡ some (live p)
    → mytbf_returntoken (pos i) n s ≡ done (r, t)
    → (r ≡ n)
      × (p' : Tbf) × (get_elem? t.jobs i ≡ some (live p'))
      × (p'.token ≤ℤ p.burst)
      × (p'.token ≤ℤ p.token +ℤ n)
      × ((p'.token ≡ p.token +ℤ n) ⊎ (p'.token ≡ p.burst))
unfolding mytbf_returntoken
return_caps i n s p h q =
    let (sum, e, d) = >>=-eq-done (add_int p.token n) _ (rw (deref_live s.jobs i h) at q) in
    let e' = add_int-eq p.token n e in
    let there =
      get_elem?-set_self s.jobs i (live (record p { token = min_int sum p.burst }))
        (get_elem?-lt-length s.jobs i h) in
    (
      cc,
      record p { token = min_int sum p.burst },
      cc there,
      ground arith,
      ground arith,
      ground arith,
    )

pub returntoken_done :
    (i : ℕ) (n : ℤ) (s : Library) (p : Tbf)
    → get_elem? s.jobs i ≡ some (live p)
    → fits (p.token +ℤ n) ≡ true
    → mytbf_returntoken (pos i) n s
      ≡ done (
        n,
        record s {
          jobs = set s.jobs i (live (record p { token = min_int (p.token +ℤ n) p.burst }));
        },
      )
unfolding mytbf_returntoken
returntoken_done i n s p h ok = rw (deref_live s.jobs i h, add_int-done p.token n ok)

pub fetch_full :
    (k i : ℕ) (want : ℤ) (s : Library) (p : Tbf)
    → get_elem? s.jobs i ≡ some (live p)
    → p.token ≢ pos 0
    → fits (p.token -ℤ min_int p.token want) ≡ true
    → mytbf_fetchtoken k (pos i) want s
      ≡ done (
        min_int p.token want,
        record s {
          jobs = set s.jobs i (live (record p { token = p.token -ℤ min_int p.token want }));
        },
      )
unfolding mytbf_fetchtoken
fetch_full k i want s p h some_left ok =
    rw (await_full k i s p h some_left, take_tokens-done i want s p h ok)

-- A fetch of a number of tokens that is not negative, from a bucket with at least one token and no
-- more than `burst`, undone by giving the same tokens back, leaves the library as it was.
pub fetch-return :
    (k i a w : ℕ) (s : Library) (p : Tbf)
    → get_elem? s.jobs i ≡ some (live p)
    → p.token ≡ pos (suc a)
    → p.token ≤ℤ p.burst
    → suc a < 2 ^ 31
    → (mytbf_fetchtoken k (pos i) (pos w) s >>= λ (rt : ℤ × Library).
        mytbf_returntoken (pos i) rt.0 rt.1)
      ≡ done (pos (min (suc a) w), s)
unfolding mytbf_fetchtoken ◌+ℤ◌ ◌-ℤ◌
fetch-return k i a w s p h et room small =
    let m = min_int p.token (pos w) in
    let p₁ : Tbf = record p { token = p.token -ℤ m } in
    let p₂ : Tbf = record p₁ { token = min_int (p₁.token +ℤ m) p₁.burst } in
    let same : p₂ ≡ p = ground arith in
    rw
      (
        await_full k i s p h (ground arith),
        take_tokens-done i (pos w) s p h (ground arith),
        returntoken_done i m (record s { jobs = set s.jobs i (live p₁) }) p₁
            (get_elem?-set_self s.jobs i (live p₁) (get_elem?-lt-length s.jobs i h)) (ground arith),
        set-set s.jobs i (live p₁) (live p₂),
        same,
        set_same s.jobs i h,
      )
      (ground arith)

deref_null : (xs : List (Slot Tbf)) (i : ℕ) → get_elem? xs i ≡ some null → deref xs (pos i) ≡ fault
deref_null xs i h = rw (h, deref)

await_null : (k i : ℕ) (s : Library) → get_elem? s.jobs i ≡ some null → await k (pos i) s ≡ fault
unfolding await
await_null zero i s h = rw (deref_null s.jobs i h)
await_null (suc k) i s h = rw (deref_null s.jobs i h)

reused :
    (t : Library) (i : ℕ)
    → get_elem? t.jobs i ≡ some null
    → (cps burst : ℤ) (rt : ℤ × Library) → Initialised true cps burst t rt
    → (j : ℕ) × (rt.0 ≡ pos j) × (j ≤ i)
reused t i free cps burst (pos j, u) (m, f, before, same, b) =
    (j, refl, elim (dec_lt i j) [ yes lt ↦ absurd (before i lt free) | no le ↦ omega arith ])
reused t i free cps burst (negsuc n, u) (z, same, inl (m, b)) = cc
reused t i free cps burst (negsuc n, u) (z, same, inr (m, b, full)) = absurd (full i free)

-- A destroyed position is free: every later call on it is undefined, a second destroy included, and
-- the next `mytbf_init` that finds memory returns this position or an earlier one.
destroy_frees :
    (s : Library) (i : ℕ) (p : Tbf) {r : ℤ} {t : Library}
    → IsValid s
    → get_elem? s.jobs i ≡ some (live p)
    → mytbf_destroy (pos i) s ≡ done (r, t)
    → ((n : ℤ) → mytbf_returntoken (pos i) n t ≡ fault)
      × ((k : ℕ) (n : ℤ) → mytbf_fetchtoken k (pos i) n t ≡ fault)
      × (mytbf_destroy (pos i) t ≡ fault)
      × ((cps burst : ℤ) → (j : ℕ) × ((mytbf_init true cps burst t).0 ≡ pos j) × (j ≤ i))
unfolding mytbf_returntoken mytbf_fetchtoken mytbf_destroy
destroy_frees s i p {t} v h q =
    let after : t ≡ record s { jobs = set s.jobs i null; blocks = s.blocks - 1 } =
      cc (destroy_lem s i p v h) in
    let free : get_elem? t.jobs i ≡ some null =
      rw after (get_elem?-set_self s.jobs i null (get_elem?-lt-length s.jobs i h)) in
    (
      λ n. rw (deref_null t.jobs i free),
      λ k n. rw (await_null k i t free),
      rw (deref_null t.jobs i free),
      λ cps burst.
          reused t i free cps burst (mytbf_init true cps burst t) (init_result true cps burst t),
    )

-- The loop that frees the jobs leaves their pointers behind, and an alarm reads them.
freed_faults :
    (xs : List (Slot Tbf)) {ys : List (Slot Tbf)}
    → free_all xs ≡ done ys
    → 0 < count_live xs
    → accrue ys ≡ fault
unfolding free_all accrue count_live
freed_faults [] q h = absurd (omega arith)
freed_faults (null ∷ xs) q h =
    let (rest, e, d) = >>=-eq-done (free_all xs) _ q in ground (arith, freed_faults xs e h)
freed_faults (live t ∷ xs) q h = let (rest, e, d) = >>=-eq-done (free_all xs) _ q in ground arith
freed_faults (dangling ∷ xs) q h = cc

-- Where the library is loaded with its handler installed, and SIGALRM had its default action
-- before, which is the NULL pointer, `mytbf_unload` leaves the handler installed; if there was a
-- job, the next alarm then reads a freed block.
unload_faults :
    (s : Library) {t : Library}
    → s.inited ≡ true
    → s.action ≡ library_handler
    → s.func ≡ default_action
    → 0 < count_live s.jobs
    → mytbf_unload s ≡ done t
    → (t.action ≡ library_handler) × (t.inited ≡ false) × (handle t ≡ fault)
unfolding mytbf_unload handle restored
unload_faults s {t} i a f n q =
    let q' : (free_all s.jobs >>= λ (freed : List (Slot Tbf)). done (record s {
      inited = false;
      action = restored s.func s.action;
      func = default_action;
      jobs = freed;
      blocks = s.blocks - count_live s.jobs;
    }))
        ≡ done t =
      ground arith in
    let (ys, e, d) = >>=-eq-done (free_all s.jobs) _ q' in
    let same : t ≡ record s {
      inited = false;
      action = restored s.func s.action;
      func = default_action;
      jobs = ys;
      blocks = s.blocks - count_live s.jobs;
    } =
      cc in
    rw (same, f) (a, refl, rw (freed_faults s.jobs e n))
