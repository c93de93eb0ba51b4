-- ===== src/Copy/Chars.antt =====
-- The loops of stdio/mycpy.c, stdio/mycpy1.c and stdio/char_count.c, and the second loop of
-- fileio/trunc_ln_10.c. A file is the list of its bytes; `char` is signed, as on x86.
use mathlib.Core.Option
use mathlib.Core.Bool.{not}
use mathlib.Core.List.{append-nil, append_assoc}
use native.Mathlib.Decide.{ℕ_discrete}
use apue_pratice.Prelude.{
  ℕ, zero, suc, ◌+◌, ◌-◌, ◌%◌, ◌≤◌, ◌<◌, ◌≡◌, refl, sym, ◌≢◌, Bool, true, false, ◌&&◌, Option, none,
  some, List, [], ◌∷◌, ◌++◌, arith, ltb, ◌==◌, if◌then◌else◌, length, take, drop, take-append-drop,
  length-drop,
}
use apue_pratice.Prelude.Int.{ℤ, pos, negsuc, ◌+ℤ◌, eqb_ℤ}
use apue_pratice.Prelude.Outcome.{Outcome, done, ◌>>=◌}
use apue_pratice.Prelude.CInt.{add_int}

-- `char c = fgetc(fp)`, for a byte.
abbrev pub as_char : ℕ → ℤ
as_char b = if ltb b 128 then pos b else negsuc (255 - b)

-- The byte that `fputc(c, fp)` writes: `(unsigned char)c`.
abbrev pub as_byte : ℤ → ℕ
as_byte (pos n) = n % 256
as_byte (negsuc n) = 255 - n % 256

-- `c == EOF`
abbrev pub is_eof : ℤ → Bool
is_eof c = eqb_ℤ c (negsuc 0)

-- The loop over `char c = fgetc(src)` and `fputc(c, dst)`, with what `dst` has received.
unfoldable pub copy_chars : List ℕ → List ℕ → List ℕ
copy_chars [] out = out
copy_chars (b ∷ bs) out =
    let rest = copy_chars bs (out ++ as_byte (as_char b) ∷ []) in
    if is_eof (as_char b) then out else rest

-- The bytes before the first 255.
pub before_ff : List ℕ → List ℕ
before_ff [] = []
before_ff (b ∷ bs) = let rest = before_ff bs in if b == 255 then [] else b ∷ rest

-- The members of a file are bytes.
unfoldable pub all_bytes : List ℕ → Bool
all_bytes [] = true
all_bytes (b ∷ bs) = ltb b 256 && all_bytes bs

-- No byte of the file is 255.
unfoldable pub no_ff : List ℕ → Bool
no_ff [] = true
no_ff (b ∷ bs) = not (b == 255) && no_ff bs

pub before_ff-no_ff : (bs : List ℕ) → no_ff bs ≡ true → before_ff bs ≡ bs
unfolding before_ff no_ff
before_ff-no_ff [] h = refl
before_ff-no_ff (b ∷ bs) h = ground (arith, before_ff-no_ff bs)

copied_char : (b : ℕ) → b < 256 → b ≢ 255 → (is_eof (as_char b) ≡ false) × (as_byte (as_char b) ≡ b)
copied_char b h n = ground arith

-- The loop copies the file up to its first byte 255, which `char` makes equal to EOF.
pub copy_chars-stops :
    (bs out : List ℕ) → all_bytes bs ≡ true → copy_chars bs out ≡ out ++ before_ff bs
unfolding copy_chars before_ff all_bytes
copy_chars-stops [] out h = sym (append-nil out)
copy_chars-stops (b ∷ bs) out h = elim (ℕ_discrete b 255) [
  | yes stop ↦ ground (arith, append-nil out)
  | no byte ↦
      let go_on : copy_chars (b ∷ bs) out ≡ copy_chars bs (out ++ b ∷ []) =
        ground (arith, copied_char b) in
      let kept : before_ff (b ∷ bs) ≡ b ∷ before_ff bs = ground arith in
      rw (
        go_on,
        kept,
        copy_chars-stops bs (out ++ b ∷ []) (ground arith),
        append_assoc out (b ∷ []) (before_ff bs),
      )
]

-- How such a program ends: its exit status, and the new contents of the destination, if the
-- destination was opened for writing.
pub record Ended : Type 0 where
  pub status : ℕ
  pub written : Option (List ℕ)

abbrev pub gives_up : ℕ → Ended
gives_up status = record { status = status; written = none }

-- `main` of stdio/mycpy.c: the number of arguments, the source if it can be opened, and whether the
-- destination can.
unfoldable pub mycpy_main : ℕ → Option (List ℕ) → Bool → Ended
mycpy_main argc src dst = if ltb argc 3 then gives_up 0 else elim src [
  | none ↦ gives_up 0
  | some bs ↦ if dst then record { status = 0; written = some (copy_chars bs []) } else gives_up 0
]

-- BUF_SIZE of stdio/mycpy1.c
abbrev pub chunk : ℕ
chunk = 32

-- The loop over `fread` and `fwrite`, with at most `fuel` rounds.
unfoldable pub copy_chunks : ℕ → List ℕ → List ℕ → Option (List ℕ)
copy_chunks zero input out = none
copy_chunks (suc fuel) input out =
    let rest = copy_chunks fuel (drop chunk input) (out ++ take chunk input) in
    if length (take chunk input) == 0 then some out else rest

-- `main` of stdio/mycpy1.c.
unfoldable pub mycpy1_main : ℕ → ℕ → Option (List ℕ) → Bool → Option Ended
mycpy1_main fuel argc src dst = if ltb argc 3 then some (gives_up 0) else elim src [
  | none ↦ some (gives_up 0)
  | some bs ↦
      if dst
      then Option.map (λ out. record { status = 0; written = some out }) (copy_chunks fuel bs [])
      else some (gives_up 0)
]

copy_chunks-copies :
    (fuel : ℕ) (input out : List ℕ)
    → length input < fuel
    → copy_chunks fuel input out ≡ some (out ++ input)
unfolding copy_chunks
copy_chunks-copies zero input out h = absurd (omega arith)
copy_chunks-copies (suc fuel) [] out h = ground (arith, append-nil out)
copy_chunks-copies (suc fuel) (b ∷ bs) out h =
    let go_on : copy_chunks (suc fuel) (b ∷ bs) out
        ≡ copy_chunks fuel (drop 31 bs) (out ++ b ∷ take 31 bs) =
      ground arith in
    let shorter : length (drop 31 bs) < fuel = ground (arith, length-drop 31 bs) in
    rw (
      go_on,
      copy_chunks-copies fuel (drop 31 bs) (out ++ b ∷ take 31 bs) shorter,
      append_assoc out (b ∷ take 31 bs) (drop 31 bs),
      take-append-drop 31 bs,
    )

-- The loop of stdio/char_count.c: `count` is an `int`.
unfoldable pub count_chars : List ℕ → ℤ → Outcome ℤ
count_chars [] count = done count
count_chars (b ∷ bs) count = add_int count (pos 1) >>= count_chars bs

-- `main` of stdio/char_count.c: what it prints as the size, if the file can be opened.
unfoldable pub char_count_main : ℕ → Option (List ℕ) → Outcome (Option ℤ)
char_count_main argc file = if ltb argc 2 then done none else elim file [
  | none ↦ done none
  | some bs ↦ count_chars bs (pos 0) >>= (λ count. done (some count))
]

count_chars-counts :
    (bs : List ℕ) (n : ℕ)
    → n + length bs < 2147483648
    → count_chars bs (pos n) ≡ done (pos (n + length bs))
unfolding count_chars add_int ◌+ℤ◌
count_chars-counts [] n h = ground arith
count_chars-counts (b ∷ bs) n h = ground (arith, count_chars-counts bs (n + 1))

-- With both files open, stdio/mycpy.c writes the bytes of the source before its first byte 255.
mycpy_main-stops :
    (argc : ℕ) (bs : List ℕ)
    → 3 ≤ argc
    → all_bytes bs ≡ true
    → mycpy_main argc (some bs) true ≡ record { status = 0; written = some (before_ff bs) }
unfolding mycpy_main
mycpy_main-stops argc bs h bytes = ground (arith, copy_chars-stops bs [] bytes)

-- With both files open, stdio/mycpy1.c ends after at most one round more than the source has bytes,
-- and the destination is the source.
pub mycpy1_main-copies :
    (fuel argc : ℕ) (bs : List ℕ)
    → 3 ≤ argc
    → length bs < fuel
    → mycpy1_main fuel argc (some bs) true ≡ some (record { status = 0; written = some bs })
unfolding mycpy1_main
mycpy1_main-copies fuel argc bs h enough = ground (arith, copy_chunks-copies fuel bs [] enough)

-- stdio/char_count.c prints the number of bytes of a file of less than 2 ^ 31 bytes.
pub char_count_main-counts :
    (argc : ℕ) (bs : List ℕ)
    → 2 ≤ argc
    → length bs < 2147483648
    → char_count_main argc (some bs) ≡ done (some (pos (length bs)))
unfolding char_count_main
char_count_main-counts argc bs h small =
    ground (arith, count_chars-counts bs 0 (omega (arith, small)))
