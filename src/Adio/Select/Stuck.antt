-- ===== src/Adio/Select/Stuck.antt =====
-- adio/select.c where a transfer stops short or fails: the buffer is written again from its head,
-- and a failed read becomes a write of a negative length.
use Prim.Native.Nat.{min}
use mathlib.Core.Path.{subst}
use apue_pratice.Prelude.{
  ℕ, ◌+◌, ◌≤◌, ◌<◌, ◌≡◌, refl, ◌≢◌, inl, inr, true, false, ◌&&◌, List, [], ◌∷◌, ◌++◌, arith,
  Bool-cases, take,
}
use apue_pratice.Prelude.Int.{ℤ, pos, negsuc, ◌+ℤ◌, eqb_ℤ}
use apue_pratice.Prelude.Outcome.{done, fault, >>=-eq-done}
use apue_pratice.Adio.Pipe.{
  buf_size, state_read, state_write, Pipe, Transfer, failed, moved, write_size, after_write,
  finished, Exit,
}
use apue_pratice.Adio.Select.{
  FdSets, contains, fd_sets, no_fds, Found, Selected, interrupted, error, ready, take_read,
  take_write, switch_on, advance_all, pipe_push, copy_loop,
}

-- A pipeline that has written past the end of its buffer.
pub record IsPast (p : Pipe) : Type 0 where
  pub writing : p.state ≡ state_write
  pub size : ℕ
  pub at : ℕ
  pub has_len : p.len ≡ pos size
  pub has_off : p.off ≡ pos at
  pub past : size < at

-- When a write moves `k` of the `n` bytes of the buffer and the next write moves all that it asks
-- for, the next write begins at the head of the buffer again: the first `k` bytes are in the file
-- twice, and the offset has passed the length.
pub short_write_repeats :
    (n k : ℕ) (p : Pipe)
    → p.state ≡ state_write
    → p.len ≡ pos n
    → p.off ≡ pos 0
    → n ≤ buf_size
    → 0 < k
    → k < n
    → (p₁ : Pipe) × (p₂ : Pipe) × (take_write (write_size (moved k) p.len) p ≡ done p₁)
      × (take_write (write_size (moved n) p₁.len) p₁ ≡ done p₂)
      × (p₂.output ≡ p.output ++ take k p.buf ++ take n p.buf)
      × IsPast p₂
unfolding take_write ◌+ℤ◌
short_write_repeats n k p st el eo small some_bytes short =
    let p₁ : Pipe = record p { output = p.output ++ take k p.buf; off = pos k } in
    let p₂ : Pipe = record p {
      output = p.output ++ take k p.buf ++ take n p.buf;
      off = pos (k + n);
    } in
    (
      p₁,
      p₂,
      ground arith,
      ground arith,
      refl,
      record {
        writing = st;
        size = n;
        at = k + n;
        has_len = el;
        has_off = refl;
        past = omega arith;
      },
    )

-- An answer of the kernel that reports no exception and fails no write.
abbrev pub IsCalm : Selected → Type 0
IsCalm interrupted = Unit
IsCalm (error e) = Unit
IsCalm (ready f io) = ((fd : ℕ) → f.exceptional fd ≡ false) × ((i : ℕ) → io i ≢ failed)

abbrev pub IsCalmRound : List Selected → Type 0
IsCalmRound [] = Unit
IsCalmRound (c ∷ cs) = IsCalm c × IsCalmRound cs

abbrev pub IsCalmRun : List (List Selected) → Type 0
IsCalmRun [] = Unit
IsCalmRun (r ∷ rs) = IsCalmRound r × IsCalmRun rs

IsPast-write :
    (t : Transfer) (p : Pipe) {p' : Pipe}
    → t ≢ failed
    → IsPast p
    → take_write (write_size t p.len) p ≡ done p'
    → IsPast p'
unfolding take_write ◌+ℤ◌
IsPast-write failed p ne h q = absurd (ne refl)
IsPast-write (moved k) p {p'} ne h q =
    let m = min k h.size in
    let same : p' ≡ record (after_write m p) { off = pos (h.at + m) } = ground arith in
    rw same (record {
      writing = h.writing;
      size = h.size;
      at = h.at + m;
      has_len = h.has_len;
      has_off = refl;
      past = omega (arith, h.past);
    })

IsPast-switch :
    (s : FdSets) (f : Found) (t : Transfer) (p : Pipe) {p' : Pipe}
    → ((fd : ℕ) → f.exceptional fd ≡ false)
    → t ≢ failed
    → IsPast p
    → switch_on p.state s f t p ≡ done p'
    → IsPast p'
unfolding switch_on
IsPast-switch s f t p {p'} calm ne h q =
    let q' : switch_on state_write s f t p ≡ done p' =
      subst (λ st. switch_on st s f t p ≡ done p') h.writing q in
    elim (Bool-cases (contains s.writes p.dst && f.writable p.dst)) [
      | inl now ↦ IsPast-write t p ne h (ground (arith, calm p.dst))
      | inr idle ↦ let same : p' ≡ p = ground (arith, calm p.dst) in rw same h
    ]

IsPast-push :
    (calls : List Selected) (p : Pipe) (r : ℤ × List Pipe)
    → IsCalmRound calls
    → IsPast p
    → pipe_push calls (p ∷ []) ≡ done r
    → (p' : Pipe) × (r.1 ≡ p' ∷ []) × IsPast p'
unfolding pipe_push advance_all
IsPast-push [] p r c h q = cc
IsPast-push (interrupted ∷ calls) p r c h q = IsPast-push calls p r c.1 h q
IsPast-push (error e ∷ calls) p r c h q = (p, cc, h)
IsPast-push (ready f io ∷ calls) p r c h q =
    let s = fd_sets (p ∷ []) no_fds in
    let (ps, e, d) = >>=-eq-done (advance_all 0 s f io (p ∷ [])) _ q in
    let (p', e', d') = >>=-eq-done (switch_on p.state s f (io 0) p) _ e in
    (p', cc, IsPast-switch s f (io 0) p c.0.0 (c.0.1 0) h e')

-- A run of one pipeline whose offset has passed its length, in the write state, does not exit with
-- status 0, however many rounds it gets, unless an exception or a failing write comes.
pub past_never_ends :
    (rounds : List (List Selected)) (p : Pipe) (e : Exit)
    → IsCalmRun rounds
    → IsPast p
    → copy_loop rounds (p ∷ []) ≡ done e
    → e.status ≢ 0
unfolding copy_loop finished
past_never_ends [] p e c h q z = cc
past_never_ends (calls ∷ rounds) p e c h q z =
    let (r, e₁, d) = >>=-eq-done (pipe_push calls (p ∷ [])) _ q in
    let (p', same, h') = IsPast-push calls p r c.0 h e₁ in
    let unsettled : finished r.1 ≡ false = rw same (rw h'.writing refl) in
    elim (Bool-cases (eqb_ℤ r.0 (pos 0))) [
      | inr failing ↦ ground arith
      | inl fine ↦
          let next : copy_loop rounds r.1 ≡ done e = ground arith in
          past_never_ends rounds p' e c.1 h' (rw same at next) z
    ]

-- A failed read is taken for data: the pipeline goes on to write, and the next time that its
-- destination can be written, without an exception, the call reads outside of the buffer.
failed_read_faults :
    (s s' : FdSets) (f f' : Found) (t : Transfer) (p : Pipe) {p' : Pipe}
    → p.state ≡ state_read
    → contains s.excepts p.src && f.exceptional p.src ≡ false
    → contains s.reads p.src && f.readable p.src ≡ true
    → switch_on p.state s f failed p ≡ done p'
    → contains s'.excepts p.dst && f'.exceptional p.dst ≡ false
    → contains s'.writes p.dst && f'.writable p.dst ≡ true
    → (p'.state ≡ state_write) × (switch_on p'.state s' f' t p' ≡ fault)
unfolding switch_on take_read take_write
failed_read_faults s s' f f' t p {p'} st fine able q fine' able' =
    let same : p' ≡ record p { state = state_write; off = pos 0; len = negsuc 0 } = ground arith in
    rw same (refl, rw (fine', able') refl)
