-- ===== src/Signal/Tbf/Buckets.antt =====
-- What signal/mytbf.c gives its clients: tokens that are counted, waits that end, positions that
-- can be used again.
use Prim.Native.Nat.{min}
use apue_pratice.Prelude.{
  ℕ, zero, suc, ◌-◌, ◌^◌, ◌<◌, ◌≡◌, ◌≢◌, inl, inr, true, some, List, arith, Bool-cases, get_elem?,
  set,
}
use apue_pratice.Prelude.Int.{ℤ, pos, ◌+ℤ◌, ◌-ℤ◌, eqb_ℤ}
use apue_pratice.Prelude.Outcome.{done, >>=-eq-done}
use apue_pratice.Prelude.CInt.{fits, sub_int, min_int, sub_int-done, sub_int-eq}
use apue_pratice.Slots.{Slot, live, deref}
use apue_pratice.Signal.Tbf.{Tbf, Library, accrue, handle, await, take_tokens, mytbf_fetchtoken}
use apue_pratice.Slots.First.{deref-eq-done, deref_live}
use apue_pratice.Signal.Tbf.Alarms.{accrue-get, await_never, await_once}

-- The tokens taken and the tokens left are those that the bucket held, and never more than asked.
abbrev pub Taken : ℕ → ℤ → Library → ℤ × Library → Type 0
Taken i want u (r, t) =
    (p : Tbf) × (get_elem? u.jobs i ≡ some (live p))
    × (p.token ≢ pos 0)
    × (r ≡ min_int p.token want)
    × (t ≡ record u { jobs = set u.jobs i (live (record p { token = p.token -ℤ r })) })

await_holds :
    (k i : ℕ) (s : Library) {u : Library}
    → await k (pos i) s ≡ done u
    → (p : Tbf) × (get_elem? u.jobs i ≡ some (live p)) × (p.token ≢ pos 0)
unfolding await
await_holds zero i s q =
    let (p, e, d) = >>=-eq-done (deref s.jobs (pos i)) _ q in
    (p, ground (arith, deref-eq-done s.jobs i e), ground arith)
await_holds (suc k) i s {u} q =
    let (p, e, d) = >>=-eq-done (deref s.jobs (pos i)) _ q in
    elim (Bool-cases (eqb_ℤ p.token (pos 0))) [
      | inl empty ↦
          let (v, e', d') = >>=-eq-done (handle s) (await k (pos i)) (rw empty at d) in
          await_holds k i v d'
      | inr full ↦ (p, ground (arith, deref-eq-done s.jobs i e), ground arith)
    ]

take_tokens-Taken :
    (i : ℕ) (want : ℤ) (u : Library) (p : Tbf) {r : ℤ} {t : Library}
    → get_elem? u.jobs i ≡ some (live p)
    → p.token ≢ pos 0
    → take_tokens (pos i) want u ≡ done (r, t)
    → Taken i want u (r, t)
unfolding take_tokens
take_tokens-Taken i want u p held nonzero q =
    let (left, e, d) =
      >>=-eq-done (sub_int p.token (min_int p.token want)) _ (rw (deref_live u.jobs i held) at q) in
    (p, held, nonzero, cc, ground (arith, sub_int-eq p.token (min_int p.token want) e))

-- Whatever alarms come while it waits, a fetch that returns takes from a bucket that is not empty the
-- smaller of what it holds and what was asked, and changes nothing else once the wait is over.
pub fetch_takes :
    (k i : ℕ) (want : ℤ) (s : Library) {r : ℤ} {t : Library}
    → mytbf_fetchtoken k (pos i) want s ≡ done (r, t)
    → (u : Library) × (await k (pos i) s ≡ done u) × Taken i want u (r, t)
unfolding mytbf_fetchtoken
fetch_takes k i want s q =
    let (u, e, d) = >>=-eq-done (await k (pos i) s) _ q in
    let (p, held, nonzero) = await_holds k i s e in
    (u, e, take_tokens-Taken i want u p held nonzero d)

pub take_tokens-done :
    (i : ℕ) (want : ℤ) (u : Library) (p : Tbf)
    → get_elem? u.jobs i ≡ some (live p)
    → fits (p.token -ℤ min_int p.token want) ≡ true
    → take_tokens (pos i) want u
      ≡ done (
        min_int p.token want,
        record u {
          jobs = set u.jobs i (live (record p { token = p.token -ℤ min_int p.token want }));
        },
      )
unfolding take_tokens
take_tokens-done i want u p held ok =
    rw (deref_live u.jobs i held, sub_int-done p.token (min_int p.token want) ok)

-- A fetch from an empty bucket with a positive rate, of a number of tokens that is not negative,
-- returns at the first alarm with the smaller of the rate and what was asked, unless the alarm
-- overflows the tokens of some job; the bucket keeps the rest.
pub fetch_returns :
    (k i c w : ℕ) (s : Library) (p : Tbf) {ys : List (Slot Tbf)}
    → get_elem? s.jobs i ≡ some (live p)
    → p.token ≡ pos 0
    → p.cps ≡ pos (suc c)
    → suc c < 2 ^ 31
    → accrue s.jobs ≡ done ys
    → mytbf_fetchtoken (suc k) (pos i) (pos w) s
      ≡ done (
        pos (min (suc c) w),
        record s {
          jobs = set ys i (live (record p { token = pos (suc c - min (suc c) w) }));
          alarm = 1;
        },
      )
unfolding mytbf_fetchtoken ◌+ℤ◌ ◌-ℤ◌
fetch_returns k i c w s p {ys} h et ec small q = rw (await_once k i c s p h et ec q) (
    rw
      (take_tokens-done i (pos w) (record s { jobs = ys; alarm = 1 })
        (record p { token = p.token +ℤ p.cps }) (accrue-get s.jobs i p q h) (ground arith))
      (ground arith))

-- A fetch from an empty bucket whose rate is 0 never returns, however many alarms come.
pub fetch_hangs :
    (k i : ℕ) (want : ℤ) (s : Library) (p : Tbf)
    → get_elem? s.jobs i ≡ some (live p)
    → p.token ≡ pos 0
    → p.cps ≡ pos 0
    → (r : ℤ) (t : Library) → mytbf_fetchtoken k (pos i) want s ≢ done (r, t)
unfolding mytbf_fetchtoken
fetch_hangs k i want s p h et ec r t q =
    let (u, e, d) = >>=-eq-done (await k (pos i) s) _ q in await_never k i s p h et ec u e
