-- ===== src/Signal/SlowCat/Spend.antt =====
-- What one round of signal/slow_cat.c spends of its bucket.
use Prim.Native.Nat.{min}
use apue_pratice.Prelude.{
  ℕ, suc, ◌-◌, ◌^◌, ◌≤◌, ◌<◌, ◌≡◌, some, [], ◌∷◌, ◌++◌, arith, length, get_elem?, set,
  get_elem?-set_self, take, drop,
}
use apue_pratice.Prelude.Int.{pos, ◌+ℤ◌, ◌-ℤ◌, ◌≤ℤ◌}
use apue_pratice.Prelude.Outcome.{done}
use apue_pratice.Prelude.CInt.{min_int}
use apue_pratice.Copy.Blocks.{take-left}
use apue_pratice.Slots.{live}
use apue_pratice.Slots.First.{get_elem?-lt-length, set-set}
use apue_pratice.Signal.Token.{moved}
use apue_pratice.Signal.Tbf.{Library, Tbf, mytbf_fetchtoken, mytbf_returntoken}
use apue_pratice.Signal.Tbf.Reuse.{returntoken_done, fetch_full}
use apue_pratice.Signal.SlowCat.{slow_buf_size, write_loop, Slow, goes_on, slow_round}

-- The library with so many tokens in bucket `i`.
abbrev pub with_tokens : ℕ → Tbf → ℕ → Library → Library
with_tokens i p n s = record s { jobs = set s.jobs i (live (record p { token = pos n })) }

fetch_all :
    (k i a : ℕ) (s : Library) (p : Tbf)
    → get_elem? s.jobs i ≡ some (live p)
    → p.token ≡ pos (suc a)
    → suc a < 2 ^ 31
    → mytbf_fetchtoken k (pos i) (pos slow_buf_size) s
      ≡ done (pos (suc (min a 1023)), with_tokens i p (a - min a 1023) s)
unfolding ◌-ℤ◌
fetch_all k i a s p h et small =
    let fetched : min_int p.token (pos slow_buf_size) ≡ pos (suc (min a 1023)) = ground arith in
    let left : p.token -ℤ pos (suc (min a 1023)) ≡ pos (a - min a 1023) = ground arith in
    rw (fetch_full k i (pos slow_buf_size) s p h (ground arith) (ground arith), fetched, left)

return_rest :
    (i a n sz : ℕ) (s : Library) (p : Tbf)
    → get_elem? s.jobs i ≡ some (live p)
    → pos (suc a) ≤ℤ p.burst
    → suc a < 2 ^ 31
    → n ≤ a
    → sz ≤ suc n
    → mytbf_returntoken (pos i) (pos (suc n) -ℤ pos sz) (with_tokens i p (a - n) s)
      ≡ done (pos (suc n) -ℤ pos sz, with_tokens i p (suc a - sz) s)
unfolding ◌+ℤ◌ ◌-ℤ◌
return_rest i a n sz s p h room small le part =
    let back : pos (suc n) -ℤ pos sz ≡ pos (suc n - sz) = ground arith in
    let sum : min_int (pos (a - n) +ℤ pos (suc n - sz)) p.burst ≡ pos (suc a - sz) = ground arith in
    rw (
      back,
      returntoken_done i (pos (suc n - sz)) (with_tokens i p (a - n) s)
          (record p { token = pos (a - n) })
          (get_elem?-set_self s.jobs i (live (record p { token = pos (a - n) }))
            (get_elem?-lt-length s.jobs i h))
          (ground arith),
      sum,
      set-set s.jobs i (live (record p { token = pos (a - n) }))
          (live (record p { token = pos (suc a - sz) })),
    )

-- A round of signal/slow_cat.c in which the file still has bytes, no call fails and the only `write` moves
-- all that was read: the bytes that were read are written, and the bucket, which had at least one
-- token and no more than its `burst`, has one token less for each of them, whatever was fetched.
pub round_spends :
    (k i a m w sz : ℕ) (s : Slow) (p : Tbf)
    → get_elem? s.lib.jobs i ≡ some (live p)
    → p.token ≡ pos (suc a)
    → pos (suc a) ≤ℤ p.burst
    → suc a < 2 ^ 31
    → 0 < length s.input
    → sz ≡ min (suc m) (min (min (suc a) 1024) (length s.input))
    → sz ≤ suc w
    → slow_round (pos i) (record { alarms = k; reading = moved m; writes = moved w ∷ [] }) s
      ≡ done (
          goes_on (record {
            lib = with_tokens i p (suc a - sz) s.lib;
            input = drop sz s.input;
            buf = take sz s.input ++ drop sz s.buf;
            output = s.output ++ take sz s.input;
          }))
unfolding slow_round write_loop
round_spends k i a m w sz s p h et room small more amount full =
    let n : ℕ = min a 1023 in
    let given : min (suc m) (min (suc n) (length s.input)) ≡ sz = ground arith in
    let all : min (suc w) sz ≡ sz = ground arith in
    rw
      (
        fetch_all k i a s.lib p h et small,
        given,
        return_rest i a n sz s.lib p h room small (ground arith) (ground arith),
        all,
        take-left sz s.input (drop sz s.buf) (ground arith),
      )
      (ground arith)
