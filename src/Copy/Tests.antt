-- ===== src/Copy/Tests.antt =====
-- Runs of the programs that copy one file.
use apue_pratice.Prelude.{
  ℕ, ◌≡◌, refl, ◌+◌, true, some, List, [], ◌∷◌, ◌++◌, arith, replicate, length,
}
use apue_pratice.Prelude.Outcome.{done}
use apue_pratice.Copy.Chars.{all_bytes, before_ff}
use apue_pratice.Copy.Texts.{
  take_line, until_nul, print_lines, print_lines-whole, fgets_lines, joined, all_lines, count_lines,
  numbered, count_lines-whole,
}
use apue_pratice.Copy.Blocks.{all_moved, moved, ended, Answer, copy_main, copy_main-copies}
use apue_pratice.Copy.Lines.{trunc_main, without_line, trunc_main-deletes}

-- The byte 255 stands third.
abbrev latin : List ℕ
latin = 65 ∷ 66 ∷ 255 ∷ 67 ∷ []

-- The kernel transfers at most three bytes at a time.
abbrev answers : List Answer
answers = replicate 12 (moved 2)

copy_main-copies_example :
    copy_main 3 (some latin) true (replicate 2048 0) answers ≡ some (ended 0 latin)
unfolding all_moved
copy_main-copies_example =
    copy_main-copies 3 latin (replicate 2048 0) answers (ground arith) (ground arith) (ground arith)

abbrev ten_lines : List ℕ
ten_lines = replicate 9 10 ++ 65 ∷ 10 ∷ 66 ∷ []

trunc_main-deletes_example :
    trunc_main 2 (some ten_lines) true (replicate 13 (moved 2))
    ≡ done (some (record { status = 0; written = some (before_ff (without_line 9 ten_lines)) }))
unfolding all_bytes all_moved
trunc_main-deletes_example =
    trunc_main-deletes 2 ten_lines (replicate 13 (moved 2)) (ground arith) (ground arith)
      (ground arith) (ground arith) (ground arith)

print_lines-whole_test :
    print_lines 5 4 (97 ∷ 98 ∷ 99 ∷ 100 ∷ 10 ∷ []) ≡ done (97 ∷ 98 ∷ 99 ∷ 100 ∷ 10 ∷ [])
print_lines-whole_test =
    print_lines-whole 5 4 (97 ∷ 98 ∷ 99 ∷ 100 ∷ 10 ∷ []) (omega arith) (omega arith) refl

-- "abcd" without a line feed, as in stdio/abcd.txt, takes two rounds of fgets.c.
abcd_rounds : fgets_lines 4 (97 ∷ 98 ∷ 99 ∷ 100 ∷ []) ≡ done (97 ∷ 98 ∷ 99 ∷ 100 ∷ 10 ∷ [], 2)
unfolding fgets_lines take_line until_nul
abcd_rounds = refl

count_lines-whole_test :
    (ls : List (List ℕ)) × (joined ls ≡ 97 ∷ 10 ∷ 98 ∷ [])
    × (all_lines ls ≡ true)
    × (count_lines 3 1 [] (97 ∷ 10 ∷ 98 ∷ []) ≡ done (numbered 1 ls ++ (1 + length ls, 0) ∷ []))
count_lines-whole_test = count_lines-whole 3 1 [] (97 ∷ 10 ∷ 98 ∷ []) (omega arith) refl

-- Two lines are reported as three.
two_lines : count_lines 3 1 [] (97 ∷ 10 ∷ 98 ∷ []) ≡ done ((1, 2) ∷ (2, 1) ∷ (3, 0) ∷ [])
unfolding count_lines take_line until_nul
two_lines = refl
