-- ===== src/Copy/Lines.antt =====
-- fileio/trunc_ln_10.c, which deletes the tenth line of a file: its loop over `read` into a temporary
-- file, and the loop that writes the file again. No call of `fputc` fails.
use Prim.Native.Nat.{min}
use mathlib.Core.List.{append-nil, append_assoc}
use native.Mathlib.Decide.{ℕ_discrete}
use apue_pratice.Prelude.{
  ℕ, zero, suc, ◌+◌, ◌-◌, ◌≤◌, ◌<◌, ◌≡◌, refl, sym, ap, ◌∙◌, Bool, true, Option, none, some, List,
  [], ◌∷◌, ◌++◌, arith, ltb, ◌==◌, if◌then◌else◌, length, take, drop, take-append-drop, length-drop,
}
use apue_pratice.Prelude.Int.{ℤ, pos, ◌+ℤ◌, eqb_ℤ}
use apue_pratice.Prelude.Outcome.{Outcome, done, fault, blocked, ◌>>=◌, >>=-eq-done}
use apue_pratice.Prelude.CInt.{add_int}
use apue_pratice.Copy.Chars.{
  as_char, as_byte, copy_chars, before_ff, all_bytes, copy_chars-stops, Ended, gives_up,
}
use apue_pratice.Copy.Blocks.{Answer, failed, moved, all_moved}

-- BUF_SIZE
abbrev pub read_limit : ℕ
read_limit = 256

-- `line`, and what `tmp` has received.
pub record Kept : Type 0 where
  pub line : ℤ
  pub tmp : List ℕ

-- `if(line != 10) fputc(buf[p], tmp);`
abbrev pub keep : ℕ → Kept → List ℕ
keep b s = if eqb_ℤ s.line (pos 10) then s.tmp else s.tmp ++ as_byte (as_char b) ∷ []

-- `if(buf[p] == '\n') line++;`
abbrev pub next_line : ℕ → ℤ → Outcome ℤ
next_line b line = if eqb_ℤ (as_char b) (pos 10) then add_int line (pos 1) else done line

-- The loop over what one `read` gave.
unfoldable pub keep_lines : List ℕ → Kept → Outcome Kept
keep_lines [] s = done s
keep_lines (b ∷ bs) s =
    next_line b s.line >>= (λ line. keep_lines bs (record { line = line; tmp = keep b s }))

-- How the loop over `read` ends.
pub data Collected : Type 0 where
  exits : ℕ → Collected
  collected : List ℕ → Collected
  reading : Collected  -- before the next call

-- The loop over the answers to `read`.
unfoldable pub collect : List Answer → List ℕ → Kept → Outcome Collected
collect [] input s = done reading
collect (failed ∷ rest) input s = done (exits 1)
collect (moved k ∷ rest) input s =
    let n = min (suc k) (min read_limit (length input)) in
    let go_on = keep_lines (take n input) s >>= (λ t. collect rest (drop n input) t) in
    if n == 0 then done (collected s.tmp) else go_on

-- After the loop: `fopen(argv[1], "w")`, and the copy back.
abbrev pub write_back : Bool → Collected → Option Ended
write_back can_write (exits status) = some (gives_up status)
write_back can_write (collected tmp) =
    if can_write
    then some (record { status = 0; written = some (copy_chars tmp []) })
    else some (gives_up 1)
write_back can_write reading = none

-- `main`: the number of arguments, the file if `open` opens it, and whether it can be opened for
-- writing.
unfoldable pub trunc_main : ℕ → Option (List ℕ) → Bool → List Answer → Outcome (Option Ended)
trunc_main argc file can_write answers =
    if ltb argc 2 then done (some (gives_up 1)) else elim file [
      | none ↦ done (some (gives_up 1))
      | some bytes ↦
          collect answers bytes (record { line = pos 1; tmp = [] })
          >>= (λ c. done (write_back can_write c))
    ]

-- A text without the line that follows its first `n` lines.
unfoldable pub without_line : ℕ → List ℕ → List ℕ
without_line n [] = []
without_line zero (b ∷ bs) = let rest = without_line zero bs in if b == 10 then bs else rest
without_line (suc n) (b ∷ bs) =
    let fewer = without_line n bs in
    let same = without_line (suc n) bs in b ∷ (if b == 10 then fewer else same)

-- What one pass from line `line` on keeps.
abbrev kept : ℕ → List ℕ → List ℕ
kept line bs = if ltb 10 line then bs else without_line (10 - line) bs

bind-after :
    {A : Type 0} (o : Outcome ℤ) (f : ℤ → Outcome A) (h : ℤ → Outcome A) (g : A → Outcome A)
    → ((l : ℤ) → h l ≡ (f l >>= g))
    → (o >>= h) ≡ (o >>= f >>= g)
bind-after (done l) f h g same = same l
bind-after fault f h g same = refl
bind-after blocked f h g same = refl

keep_lines-append :
    (xs ys : List ℕ) (s : Kept) → keep_lines (xs ++ ys) s ≡ (keep_lines xs s >>= keep_lines ys)
unfolding keep_lines
keep_lines-append [] ys s = refl
keep_lines-append (b ∷ xs) ys s =
    bind-after (next_line b s.line) (λ line. keep_lines xs (record { line = line; tmp = keep b s }))
      (λ line. keep_lines (xs ++ ys) (record { line = line; tmp = keep b s })) (keep_lines ys)
      (λ line. keep_lines-append xs ys (record { line = line; tmp = keep b s }))

line_breaks : List ℕ → ℕ
line_breaks [] = 0
line_breaks (b ∷ bs) = if b == 10 then suc (line_breaks bs) else line_breaks bs

-- `line` after the byte `b`.
abbrev after_byte : ℕ → ℕ → ℕ
after_byte b line = if b == 10 then line + 1 else line

without_line-kept :
    (n line b : ℕ) (bs : List ℕ)
    → suc n + line ≡ 10
    → without_line (suc n) (b ∷ bs) ≡ b ∷ kept (after_byte b line) bs
unfolding without_line
without_line-kept n line b bs h =
    let same : 10 - line ≡ suc n = omega (arith, h) in
    let fewer : 10 - (line + 1) ≡ n = omega (arith, h) in ground arith

kept-early :
    (line b : ℕ) (bs : List ℕ) → line < 10 → kept line (b ∷ bs) ≡ b ∷ kept (after_byte b line) bs
kept-early line b bs h =
    let left : 10 - line ≡ suc (9 - line) = omega (arith, h) in
    ground (arith, without_line-kept (9 - line) line b bs)

kept-tenth : (b : ℕ) (bs : List ℕ) → kept 10 (b ∷ bs) ≡ kept (after_byte b 10) bs
unfolding without_line
kept-tenth b bs = ground arith

kept-late :
    (line b : ℕ) (bs : List ℕ) → 10 < line → kept line (b ∷ bs) ≡ b ∷ kept (after_byte b line) bs
unfolding without_line
kept-late line b bs h = ground arith

next_line-done :
    (b line : ℕ)
    → b < 256
    → line < 2147483647
    → next_line b (pos line) ≡ done (pos (after_byte b line))
unfolding add_int ◌+ℤ◌
next_line-done b line h small = ground arith

keep-kept :
    (b line : ℕ) (bs tmp : List ℕ)
    → b < 256
    → keep b (record { line = pos line; tmp = tmp }) ++ kept (after_byte b line) bs
      ≡ tmp ++ kept line (b ∷ bs)
keep-kept b line bs tmp h = elim (ℕ_discrete line 10) [
  | yes tenth ↦ ground (arith, kept-tenth b bs)
  | no other ↦
      let written : keep b (record { line = pos line; tmp = tmp }) ≡ tmp ++ b ∷ [] = ground arith in
      let spared : kept line (b ∷ bs) ≡ b ∷ kept (after_byte b line) bs =
        ground (arith, kept-early line b bs, kept-late line b bs) in
      rw (written, spared, append_assoc tmp (b ∷ []) (kept (after_byte b line) bs))
]

-- One pass over a text of fewer than 2 ^ 31 bytes deletes the tenth line.
keep_lines-kept :
    (bs tmp : List ℕ) (line : ℕ)
    → all_bytes bs ≡ true
    → line + length bs < 2147483648
    → keep_lines bs (record { line = pos line; tmp = tmp })
      ≡ done (record { line = pos (line + line_breaks bs); tmp = tmp ++ kept line bs })
unfolding keep_lines all_bytes line_breaks without_line
keep_lines-kept [] tmp line bytes small = ground (arith, append-nil tmp)
keep_lines-kept (b ∷ bs) tmp line bytes small =
    let stepped : keep_lines (b ∷ bs) (record { line = pos line; tmp = tmp })
        ≡ keep_lines bs (record {
          line = pos (after_byte b line);
          tmp = keep b (record { line = pos line; tmp = tmp });
        }) =
      rw (next_line-done b line (ground arith) (ground arith)) in
    let counted : after_byte b line + line_breaks bs ≡ line + line_breaks (b ∷ bs) = ground arith in
    let added : keep b (record { line = pos line; tmp = tmp }) ++ kept (after_byte b line) bs
        ≡ tmp ++ kept line (b ∷ bs) =
      keep-kept b line bs tmp (ground arith) in
    rw (
      stepped,
      keep_lines-kept bs (keep b (record { line = pos line; tmp = tmp })) (after_byte b line)
          (ground arith) (ground arith),
      counted,
      added,
    )

-- The loop over `read` is one pass, however few bytes each `read` gives.
collect-keeps :
    (answers : List Answer) (input : List ℕ) (s t : Kept)
    → all_moved answers ≡ true
    → length input < length answers
    → keep_lines input s ≡ done t
    → collect answers input s ≡ done (collected t.tmp)
unfolding collect all_moved keep_lines
collect-keeps [] input s t ok enough h = absurd (omega arith)
collect-keeps (failed ∷ rest) input s t ok enough h = cc
collect-keeps (moved k ∷ rest) [] s t ok enough h = ground arith
collect-keeps (moved k ∷ rest) (b ∷ bs) s t ok enough h =
    let n = min (suc k) (min read_limit (length (b ∷ bs))) in
    let input = b ∷ bs in
    let go_on : collect (moved k ∷ rest) input s
        ≡ (keep_lines (take n input) s >>= collect rest (drop n input)) =
      ground arith in
    let split : (keep_lines (take n input) s >>= keep_lines (drop n input)) ≡ done t =
      sym (keep_lines-append (take n input) (drop n input) s)
      ∙ ap (λ bytes. keep_lines bytes s) (take-append-drop n input)
      ∙ h in
    let (mid, first, second) =
      >>=-eq-done (keep_lines (take n input) s) (keep_lines (drop n input)) split in
    rw (
      go_on,
      first,
      collect-keeps rest (drop n input) mid t ok (ground (arith, length-drop n input)) second,
    )

all_bytes-kept : (n : ℕ) (bs : List ℕ) → all_bytes bs ≡ true → all_bytes (without_line n bs) ≡ true
unfolding all_bytes without_line
all_bytes-kept n [] h = refl
all_bytes-kept zero (b ∷ bs) h = ground (arith, all_bytes-kept zero bs)
all_bytes-kept (suc n) (b ∷ bs) h = ground (arith, all_bytes-kept n bs, all_bytes-kept (suc n) bs)

-- With the file opened twice and no `read` failing, one `read` for each byte and one more are enough
-- for fileio/trunc_ln_10.c to end. Of a file of fewer than 2 ^ 31 - 1 bytes it leaves the text without
-- the tenth line, but only up to the first byte 255, which `char` makes equal to EOF.
pub trunc_main-deletes :
    (argc : ℕ) (bytes : List ℕ) (answers : List Answer)
    → 2 ≤ argc
    → all_bytes bytes ≡ true
    → length bytes < 2147483647
    → all_moved answers ≡ true
    → length bytes < length answers
    → trunc_main argc (some bytes) true answers
      ≡ done (some (record { status = 0; written = some (before_ff (without_line 9 bytes)) }))
unfolding trunc_main
trunc_main-deletes argc bytes answers usage ok small moves enough =
    let pass : keep_lines bytes (record { line = pos 1; tmp = [] })
        ≡ done (record { line = pos (1 + line_breaks bytes); tmp = without_line 9 bytes }) =
      keep_lines-kept bytes [] 1 ok (ground arith) in
    let all : collect answers bytes (record { line = pos 1; tmp = [] })
        ≡ done (collected (without_line 9 bytes)) =
      collect-keeps answers bytes (record { line = pos 1; tmp = [] }) _ moves enough pass in
    ground (arith, copy_chars-stops (without_line 9 bytes) [] (all_bytes-kept 9 bytes ok))
