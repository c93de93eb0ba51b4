-- ===== src/Signal/SlowCat.antt =====
-- signal/slow_cat.c, which writes a file to the standard output with the tokens of signal/mytbf.c. Its
-- buffer has BUF_SIZE bytes.
pub mod Spend
mod Tests
use Prim.Native.Nat.{min}
use mathlib.Core.Bool.{not}
use apue_pratice.Prelude.{
  ℕ, zero, suc, ◌+◌, ◌-◌, ◌*◌, ◌/◌, ◌%◌, ◌^◌, ◌≤◌, ◌<◌, ◌≡◌, refl, sym, ap, ◌∙◌, ◌≢◌, ◌↔◌, ◌⊎◌, inl,
  inr, Bool, true, false, ◌&&◌, ◌||◌, Option, none, some, List, [], ◌∷◌, ◌++◌, map, arith, ltb, leb,
  ◌==◌, if◌then◌else◌, Bool-cases, Option-cases, length, get_elem?, get_or, set, length-set,
  get_elem?-set_self, get_elem?-set_ne, length-append, take, drop, replicate, length-replicate,
  length-map, take-append-drop, length-take, length-drop,
}
use apue_pratice.Prelude.Int.{
  ℤ, pos, negsuc, pos_part, neg_part, ◌+ℤ◌, ◌-ℤ◌, ◌≤ℤ◌, leb_ℤ, ltb_ℤ, eqb_ℤ, int_laws, eq_of_parts,
}
use apue_pratice.Prelude.Outcome.{Outcome, done, fault, blocked, ◌>>=◌, >>=-eq-done}
use apue_pratice.Prelude.CInt.{
  fits, checked, add_int, sub_int, min_int, int_min, int_max, add_int-done, sub_int-done,
  fits_of_le, add_int-eq, sub_int-eq,
}
use apue_pratice.Signal.Token.{Answer, interrupted, failed, moved}
use apue_pratice.Signal.Tbf.{
  Library, Tbf, mytbf_fetchtoken, mytbf_returntoken, mytbf_destroy, mytbf_init,
}
use apue_pratice.Slots.{live}

-- BUF_SIZE
abbrev pub slow_buf_size : ℕ
slow_buf_size = 1024

-- One round of the outer loop: the alarms that come while it waits for tokens, the answer to its `read`,
-- and the answers to its calls of `write`.
pub record Round : Type 0 where
  pub alarms : ℕ
  pub reading : Answer
  pub writes : List Answer

-- How the loop over `write` ends, with what is written by then: it is through, a call failed, or the
-- next call has no answer yet.
pub data Writing : Type 0 where
  through : List ℕ → Writing
  gave_up : List ℕ → Writing
  calling : List ℕ → Writing

-- `while (cur != sz)`: each call asks for `sz` bytes from `buf + cur` on.
unfoldable pub write_loop : List Answer → ℕ → ℕ → List ℕ → List ℕ → Outcome Writing
write_loop [] cur sz buf out = done (if cur == sz then through out else calling out)
write_loop (interrupted ∷ rest) cur sz buf out =
    let again = write_loop rest cur sz buf out in
    if cur == sz then done (through out) else if ltb slow_buf_size (cur + sz) then fault else again
write_loop (failed ∷ rest) cur sz buf out =
    if cur == sz
    then done (through out)
    else if ltb slow_buf_size (cur + sz)
    then fault
    else done (gave_up out)
write_loop (moved k ∷ rest) cur sz buf out =
    let n = min (suc k) sz in
    let further = write_loop rest (cur + n) sz buf (out ++ take n (drop cur buf)) in
    if cur == sz
    then done (through out)
    else if ltb slow_buf_size (cur + sz)
    then fault
    else further

-- The bucket library, the bytes that the file still has, the buffer, and the bytes written.
pub record Slow : Type 0 where
  pub lib : Library
  pub input : List ℕ
  pub buf : List ℕ
  pub output : List ℕ

pub data After : Type 0 where
  goes_on : Slow → After
  exits : ℕ → Slow → After
  stands : Slow → After  -- before a `write`

abbrev pub after_writing : Slow → Writing → After
after_writing s (through out) = goes_on (record s { output = out })
after_writing s (gave_up out) = exits 1 (record s { output = out })
after_writing s (calling out) = stands (record s { output = out })

-- After a `read` of `sz` bytes: `mytbf_returntoken`, and the loop over `write`.
abbrev pub after_read : ℤ → ℤ → ℕ → List Answer → Slow → Outcome After
after_read p fetched sz writes s =
    mytbf_returntoken p (fetched -ℤ pos sz) s.lib >>= λ (returned : ℤ × Library).
    let buf' = take sz s.input ++ drop sz s.buf in
    write_loop writes 0 sz buf' s.output >>= λ w.
    done (after_writing (record s { lib = returned.1; input = drop sz s.input; buf = buf' }) w)

-- At the end of the file: `mytbf_destroy`.
abbrev pub at_end : ℤ → Slow → Outcome After
at_end p s = mytbf_destroy p s.lib >>= λ (destroyed : ℤ × Library).
    done (exits 0 (record s { lib = destroyed.1 }))

-- `read(src, buf, fetched)` and what follows it.
abbrev pub after_fetch : ℤ → Round → ℤ → Slow → Outcome After
after_fetch p r (negsuc n) s = fault
after_fetch p r (pos zero) s = done (goes_on s)
after_fetch p r (pos (suc n)) s = elim r.reading [
  | interrupted ↦ done (goes_on s)
  | failed ↦ done (exits 1 s)
  | moved k ↦
      let sz = min (suc k) (min (suc n) (length s.input)) in
      if sz == 0 then at_end p s else after_read p (pos (suc n)) sz r.writes s
]

-- One round, with the bucket `p`.
unfoldable pub slow_round : ℤ → Round → Slow → Outcome After
slow_round p r s = mytbf_fetchtoken r.alarms p (pos slow_buf_size) s.lib >>= λ (f : ℤ × Library).
    after_fetch p r f.0 (record s { lib = f.1 })

-- The outer loop, over its rounds.
unfoldable pub slow_loop : ℤ → List Round → Slow → Outcome After
slow_loop p [] s = done (goes_on s)
slow_loop p (r ∷ rs) s = slow_round p r s >>= λ (a : After). elim a [
  | goes_on t ↦ slow_loop p rs t
  | exits status t ↦ done (exits status t)
  | stands t ↦ done (stands t)
]

-- CPS and BURST
abbrev pub slow_cps : ℤ
slow_cps = pos 10

abbrev pub slow_burst : ℤ
slow_burst = pos 1024

-- `main`: the number of arguments, whether the file opens, and whether `malloc` finds memory.
unfoldable pub slow_main : ℕ → Bool → Bool → List Round → Slow → Outcome After
slow_main argc opens memory rounds s =
    let job = mytbf_init memory slow_cps slow_burst s.lib in
    let loop = slow_loop job.0 rounds (record s { lib = job.1 }) in
    if ltb argc 2
    then done (exits 1 s)
    else if not opens
    then done (exits 1 s)
    else if ltb_ℤ job.0 (pos 0)
    then done (exits 1 (record s { lib = job.1 }))
    else loop

-- Once `cur` has passed `sz`, the loop over `write` does not get through.
write_loop-past :
    (answers : List Answer) (cur sz : ℕ) (buf out out' : List ℕ)
    → sz < cur
    → write_loop answers cur sz buf out ≢ done (through out')
unfolding write_loop
write_loop-past [] cur sz buf out out' h = ground arith
write_loop-past (interrupted ∷ rest) cur sz buf out out' h =
    ground (arith, write_loop-past rest cur sz buf out out' h)
write_loop-past (failed ∷ rest) cur sz buf out out' h = ground arith
write_loop-past (moved k ∷ rest) cur sz buf out out' h =
    let n = min (suc k) sz in
    ground (arith, write_loop-past rest (cur + n) sz buf (out ++ take n (drop cur buf)) out')

-- After a write of some of the `sz` bytes, and then one of all the bytes that the program asks for, the
-- loop over `write` in signal/slow_cat.c does not get through, whatever comes next: it has passed
-- the end of what was read.
slow_write_past :
    (k l sz : ℕ) (answers : List Answer) (buf out out' : List ℕ)
    → suc k < sz
    → sz ≤ suc l
    → write_loop (moved k ∷ moved l ∷ answers) 0 sz buf out ≢ done (through out')
unfolding write_loop
slow_write_past k l sz answers buf out out' h g =
    let n = min (suc k) sz in
    let far = n + min (suc l) sz in
    ground (
      arith,
      write_loop-past answers far sz buf (out ++ take n buf ++ take (min (suc l) sz) (drop n buf))
          out',
    )
