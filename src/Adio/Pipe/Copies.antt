-- ===== src/Adio/Pipe/Copies.antt =====
-- What a pipeline holds of its source: the bytes written, those in the buffer, those not yet read.
use mathlib.Core.Option
use mathlib.Core.List.{append-nil, append_assoc}
use apue_pratice.Prelude.{
  ℕ, zero, suc, ◌≤◌, ◌≡◌, refl, ap, ◌∙◌, ◌≢◌, Option, none, some, List, [], ◌∷◌, ◌++◌, map, arith,
  length, take, drop, take-append-drop,
}
use apue_pratice.Prelude.Int.{pos}
use apue_pratice.Adio.Pipe.{
  buf_size, PipeState, state_read, state_write, state_err, state_eof, Pipe, pipe_init, Transfer,
  failed, moved, read_size, after_read, after_write, Files, opened, open_all,
}

-- A transfer that moves all that it can.
abbrev pub IsWhole : Transfer → Type 0
IsWhole failed = ⊥
IsWhole (moved k) = buf_size ≤ k

-- Where the bytes of the source are, by the state of the pipeline.
abbrev pub HoldsAt : PipeState → List ℕ → Pipe → Type 0
HoldsAt state_read bytes p = p.output ++ p.input ≡ bytes
HoldsAt state_write bytes p =
    (n : ℕ) × (p.len ≡ pos n)
    × (p.off ≡ pos 0)
    × (n ≤ buf_size)
    × (n ≢ 0)
    × (p.output ++ (take n p.buf ++ p.input) ≡ bytes)
HoldsAt state_eof bytes p = p.output ≡ bytes
HoldsAt state_err bytes p = (rest : List ℕ) × (p.output ++ rest ≡ bytes)

abbrev pub Holds : List ℕ → Pipe → Type 0
Holds bytes p = HoldsAt p.state bytes p

-- The same of several pipelines.
abbrev pub AllHold : List (List ℕ) → List Pipe → Type 0
AllHold [] [] = Unit
AllHold [] (p ∷ ps) = ⊥
AllHold (b ∷ bs) [] = ⊥
AllHold (b ∷ bs) (p ∷ ps) = Holds b p × AllHold bs ps

pub read_size-zero : (k : ℕ) (xs : List ℕ) → read_size k xs ≡ 0 → xs ≡ []
read_size-zero k [] h = refl
read_size-zero k (x ∷ xs) h = absurd (omega arith)

pub read_size-le :
    (k : ℕ) (xs : List ℕ) → (read_size k xs ≤ buf_size) × (read_size k xs ≤ length xs)
read_size-le k xs = (omega arith, omega arith)

pub take-append_left :
    (n : ℕ) (xs ys : List ℕ) → n ≤ length xs → take n (take n xs ++ ys) ≡ take n xs
take-append_left zero xs ys h = refl
take-append_left (suc n) [] ys h = absurd (omega arith)
take-append_left (suc n) (x ∷ xs) ys h = ap (λ r. x ∷ r) (take-append_left n xs ys (omega arith))

-- A read that succeeds moves bytes from the file into the buffer.
pub read-HoldsAt :
    (sz : ℕ) (bytes : List ℕ) (p : Pipe)
    → sz ≤ length p.input
    → sz ≤ buf_size
    → sz ≢ 0
    → p.output ++ p.input ≡ bytes
    → HoldsAt state_write bytes
        (record (after_read sz p) { state = state_write; off = pos 0; len = pos sz })
read-HoldsAt sz bytes p le small nonzero h = (
  sz,
  refl,
  refl,
  small,
  nonzero,
  rw (take-append_left sz p.input (drop sz p.buf) le) (rw (take-append-drop sz p.input) h),
)

-- A whole write moves the buffer into the file.
pub write-HoldsAt :
    (n : ℕ) (bytes : List ℕ) (p : Pipe)
    → p.output ++ (take n p.buf ++ p.input) ≡ bytes
    → (after_write n p).output ++ p.input ≡ bytes
write-HoldsAt n bytes p h = append_assoc p.output (take n p.buf) p.input ∙ h

-- A pipeline that gives up has written a beginning of its source.
pub err-HoldsAt :
    (st : PipeState) (bytes : List ℕ) (p : Pipe)
    → HoldsAt st bytes p
    → (rest : List ℕ) × (p.output ++ rest ≡ bytes)
err-HoldsAt state_read bytes p h = (p.input, h)
err-HoldsAt state_write bytes p (n, el, eo, small, nonzero, h) = (take n p.buf ++ p.input, h)
err-HoldsAt state_eof bytes p h = ([], append-nil p.output ∙ h)
err-HoldsAt state_err bytes p h = h

-- What opening the files gave, file by file.
pub open_all-cons :
    (f : Files) (fs : List Files) {ps : List Pipe}
    → open_all (f ∷ fs) ≡ some ps
    → (src : ℕ) × (dst : ℕ) × (qs : List Pipe) × (open_all fs ≡ some qs)
      × (ps ≡ pipe_init src dst (opened src dst f) ∷ qs)
unfolding open_all
open_all-cons f fs {ps} q = go f.src_fd f.dst_fd (open_all fs) q
  where
    go :
        (a b : Option ℕ) (o : Option (List Pipe))
        → (let r : Option (List Pipe) = elim a [
          | none ↦ none
          | some src ↦ elim b [
            | none ↦ none
            | some dst ↦ Option.map (λ ps. pipe_init src dst (opened src dst f) ∷ ps) o
          ]
        ] in
            r)
          ≡ some ps
        → (src : ℕ) × (dst : ℕ) × (qs : List Pipe) × (o ≡ some qs)
          × (ps ≡ pipe_init src dst (opened src dst f) ∷ qs)
    go none b o e = cc
    go (some src) none o e = cc
    go (some src) (some dst) none e = cc
    go (some src) (some dst) (some qs) e = (src, dst, qs, refl, cc)

-- What was opened holds the contents of the source.
pub open_all-AllHold :
    (fs : List Files) {ps : List Pipe}
    → open_all fs ≡ some ps
    → AllHold (map (λ f. f.content) fs) ps
unfolding open_all pipe_init
open_all-AllHold [] {ps} q = let same : [] ≡ ps = cc in rw (← same) tt
open_all-AllHold (f ∷ fs) q =
    let (src, dst, qs, o, same) = open_all-cons f fs q in rw same (refl, open_all-AllHold fs o)
