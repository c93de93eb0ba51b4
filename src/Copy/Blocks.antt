-- ===== src/Copy/Blocks.antt =====
use Prim.Native.Nat.{min}
use mathlib.Core.List.{append-nil, append_assoc}
use native.Mathlib.Decide.{ℕ_discrete}
use apue_pratice.Prelude.{
  ℕ, zero, suc, ◌+◌, ◌-◌, ◌*◌, ◌≤◌, ◌<◌, ◌≡◌, refl, sym, ap, Bool, true, false, Option, none, some,
  List, [], ◌∷◌, ◌++◌, arith, ltb, ◌==◌, if◌then◌else◌, length, length-append, take, drop,
  take-append-drop, length-take, length-drop,
}

-- BUF_SIZE
abbrev pub block : ℕ
block = 2048

-- What the kernel answers to one `read` or `write`: -1, or up to so many bytes, and at least one where
-- there are bytes to transfer.
pub data Answer : Type 0 where
  failed : Answer
  moved : ℕ → Answer

-- The bytes that the source still has, the bytes that the destination has received, and the locals
-- `buf`, `sz` and `remain`.
pub record Copying : Type 0 where
  pub input : List ℕ
  pub output : List ℕ
  pub buf : List ℕ
  pub sz : ℕ
  pub remain : ℕ

-- Where the loops are after a number of calls of the kernel.
pub data Progress : Type 0 where
  ended : ℕ → List ℕ → Progress  -- the exit status, and the destination
  calling : Copying → Progress  -- before the next call

-- `sz = read(src, buf, BUF_SIZE)`, where it does not fail.
abbrev pub read_block : ℕ → Copying → Copying
read_block k c =
    let n = min (suc k) (min block (length c.input)) in
    record c { buf = take n c.input ++ drop n c.buf; input = drop n c.input; sz = n; remain = n }

-- `write(dst, buf + sz - remain, remain)`, where it does not fail.
abbrev pub write_block : ℕ → Copying → Copying
write_block k c =
    let n = min (suc k) c.remain in
    record c { output = c.output ++ take n (drop (c.sz - c.remain) c.buf); remain = c.remain - n }

-- The two loops, over the answers of the kernel: with `remain` 0 the next call is `read`, else `write`.
-- A `read` of no bytes ends the outer loop.
unfoldable pub copy_blocks : List Answer → Copying → Progress
copy_blocks [] c = calling c
copy_blocks (failed ∷ rest) c = ended 0 c.output
copy_blocks (moved k ∷ rest) c =
    let after_read = copy_blocks rest (read_block k c) in
    let after_write = copy_blocks rest (write_block k c) in
    if c.remain == 0
    then if length c.input == 0 then ended 0 c.output else after_read
    else after_write

-- `main`: the number of arguments, the source if `open` opens it, whether it opens the destination,
-- and what the buffer happens to hold. `none` is an end before the destination is opened.
unfoldable pub copy_main : ℕ → Option (List ℕ) → Bool → List ℕ → List Answer → Option Progress
copy_main argc src dst memory answers = if ltb argc 3 then none else elim src [
  | none ↦ none
  | some bytes ↦
      if dst
      then some (
          copy_blocks answers
            (record { input = bytes; output = []; buf = memory; sz = 0; remain = 0 }))
      else none
]

-- No call of the kernel fails.
unfoldable pub all_moved : List Answer → Bool
all_moved [] = true
all_moved (failed ∷ rest) = false
all_moved (moved k ∷ rest) = all_moved rest

-- What is still to be written, of the buffer and of the source.
abbrev pending : Copying → List ℕ
pending c = take c.remain (drop (c.sz - c.remain) c.buf) ++ c.input

-- The part of the buffer that is read and not written stands in the buffer.
record InBuffer (c : Copying) : Type 0 where
  pub within : c.remain ≤ c.sz
  pub filled : c.sz ≤ length c.buf

pub take-left : (n : ℕ) (xs ys : List ℕ) → n ≤ length xs → take n (take n xs ++ ys) ≡ take n xs
take-left zero xs ys h = refl
take-left (suc n) [] ys h = absurd (omega arith)
take-left (suc n) (x ∷ xs) ys h = rw (take-left n xs ys (omega (arith, h)))

take-nil : (n : ℕ) → take {A = ℕ} n [] ≡ []
take-nil zero = refl
take-nil (suc n) = refl

drop-nil : (n : ℕ) → drop {A = ℕ} n [] ≡ []
drop-nil zero = refl
drop-nil (suc n) = refl

pub take-split : (n k m : ℕ) (xs : List ℕ) → m ≡ n + k → take n xs ++ take k (drop n xs) ≡ take m xs
take-split zero k m xs h = ap (λ l. take l xs) (omega (arith, h))
take-split (suc n) k zero xs h = absurd (omega (arith, h))
take-split (suc n) k (suc m) [] h = take-nil k
take-split (suc n) k (suc m) (x ∷ xs) h = ap (λ l. x ∷ l) (take-split n k m xs (omega (arith, h)))

pub drop-drop : (n m k : ℕ) (xs : List ℕ) → k ≡ m + n → drop n (drop m xs) ≡ drop k xs
drop-drop n zero k xs h = ap (λ l. drop l xs) (omega (arith, h))
drop-drop n (suc m) zero xs h = absurd (omega (arith, h))
drop-drop n (suc m) (suc k) [] h = drop-nil n
drop-drop n (suc m) (suc k) (x ∷ xs) h = drop-drop n m k xs (omega (arith, h))

read_block-InBuffer : (k : ℕ) (c : Copying) → InBuffer (read_block k c)
read_block-InBuffer k c =
    let n = min (suc k) (min block (length c.input)) in
    record {
      within = ground arith;
      filled = ground (arith, length-append (take n c.input) (drop n c.buf), length-take n c.input);
    }

write_block-InBuffer : (k : ℕ) (c : Copying) → InBuffer c → InBuffer (write_block k c)
write_block-InBuffer k c b = record {
  within = ground (arith, InBuffer.within b);
  filled = InBuffer.filled b;
}

read_block-pending : (k : ℕ) (c : Copying) → pending (read_block k c) ≡ c.input
read_block-pending k c =
    let n = min (suc k) (min block (length c.input)) in
    let none_gone : drop (n - n) (take n c.input ++ drop n c.buf) ≡ take n c.input ++ drop n c.buf =
      ap (λ l. drop l (take n c.input ++ drop n c.buf)) {y = 0} (ground arith) in
    rw (none_gone, take-left n c.input (drop n c.buf) (ground arith), take-append-drop n c.input)

write_block-pending :
    (k : ℕ) (c : Copying)
    → InBuffer c
    → (write_block k c).output ++ pending (write_block k c) ≡ c.output ++ pending c
write_block-pending k c b =
    let n = min (suc k) c.remain in
    let ahead = drop (c.sz - c.remain) c.buf in
    let moved_on : drop (c.sz - (c.remain - n)) c.buf ≡ drop n ahead = sym (
      drop-drop n (c.sz - c.remain) (c.sz - (c.remain - n)) c.buf
        (ground (arith, InBuffer.within b))) in
    rw (
      moved_on,
      append_assoc c.output (take n ahead) (take (c.remain - n) (drop n ahead) ++ c.input),
      sym (append_assoc (take n ahead) (take (c.remain - n) (drop n ahead)) c.input),
      take-split n (c.remain - n) c.remain ahead (ground arith),
    )

pending-empty : (c : Copying) → c.remain ≡ 0 → pending c ≡ c.input
pending-empty c h = rw h

pub no_bytes : (xs : List ℕ) → length xs ≡ 0 → xs ≡ []
no_bytes [] h = refl
no_bytes (x ∷ xs) h = absurd (omega (arith, h))

-- Two calls for each byte are enough.
copy_blocks-copies :
    (rest : List Answer) (c : Copying)
    → all_moved rest ≡ true
    → InBuffer c
    → 2 * length c.input + c.remain < length rest
    → copy_blocks rest c ≡ ended 0 (c.output ++ pending c)
unfolding copy_blocks all_moved
copy_blocks-copies [] c ok b enough = absurd (omega arith)
copy_blocks-copies (failed ∷ rest) c ok b enough = cc
copy_blocks-copies (moved k ∷ rest) c ok b enough = elim (ℕ_discrete c.remain 0) [
  | yes empty ↦ elim (ℕ_discrete (length c.input) 0) [
    | yes at_end ↦
        let stop : copy_blocks (moved k ∷ rest) c ≡ ended 0 c.output = ground arith in
        rw (stop, pending-empty c empty, no_bytes c.input at_end, append-nil c.output)
    | no more ↦
        let go_on : copy_blocks (moved k ∷ rest) c ≡ copy_blocks rest (read_block k c) =
          ground arith in
        let fewer : 2 * length (read_block k c).input + (read_block k c).remain < length rest =
          ground (arith, length-drop (min (suc k) (min block (length c.input))) c.input) in
        rw (
          go_on,
          copy_blocks-copies rest (read_block k c) ok (read_block-InBuffer k c) fewer,
          read_block-pending k c,
          pending-empty c empty,
        )
  ]
  | no full ↦
      let go_on : copy_blocks (moved k ∷ rest) c ≡ copy_blocks rest (write_block k c) =
        ground arith in
      let fewer : 2 * length c.input + (write_block k c).remain < length rest = ground arith in
      rw (
        go_on,
        copy_blocks-copies rest (write_block k c) ok (write_block-InBuffer k c b) fewer,
        write_block-pending k c b,
      )
]

-- With both files open and no call failing, two calls of the kernel for each byte and one more are
-- enough for fileio/mycpy.c to end, and the destination is the source, however few bytes each `read`
-- and each `write` transfers.
pub copy_main-copies :
    (argc : ℕ) (bytes memory : List ℕ) (answers : List Answer)
    → 3 ≤ argc
    → all_moved answers ≡ true
    → 2 * length bytes < length answers
    → copy_main argc (some bytes) true memory answers ≡ some (ended 0 bytes)
unfolding copy_main
copy_main-copies argc bytes memory answers usage ok enough = ground (
  arith,
  copy_blocks-copies answers
      (record { input = bytes; output = []; buf = memory; sz = 0; remain = 0 }) ok
      (record { within = ground arith; filled = ground arith }) (ground arith),
)
