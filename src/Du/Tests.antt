-- ===== src/Du/Tests.antt =====
-- Runs of fs/du.c.
use apue_pratice.Prelude.{◌≡◌, refl, true, some, [], ◌∷◌, arith, if◌then◌else◌}
use apue_pratice.Du.{
  Node, gone, file, dir, no_more, entry, dot, same_name, ends_from, str_ends_with, du,
  du_by_glob_within, add_found, slash, is_plain, Glob,
}
use apue_pratice.Du.Names.{no_slash}
use apue_pratice.Du.Passes.{is_readable}
use apue_pratice.Du.Sums.{du_by_glob-eq-du}

-- A directory with ".", "..", ".x" and "y".
abbrev tree : Node
tree = dir 8 true (
    entry (dot ∷ []) gone (
      entry (dot ∷ dot ∷ []) gone
        (entry (dot ∷ 120 ∷ []) (file 16) (entry (121 ∷ []) (file 24) no_more))))

-- A `glob` for patterns behind other paths that finds nothing.
abbrev nothing_found : Glob
nothing_found pattern = []

du_by_glob-eq-du_example : du_by_glob_within 0 nothing_found (97 ∷ []) tree ≡ du (97 ∷ []) tree
unfolding is_readable no_slash is_plain
du_by_glob-eq-du_example =
    du_by_glob-eq-du 0 nothing_found (97 ∷ []) tree (ground arith) (ground arith)

tree_sum : du (97 ∷ []) tree ≡ some 24576
unfolding du same_name
tree_sum = refl

glob_sum : du_by_glob_within 0 nothing_found (97 ∷ []) tree ≡ some 24576
unfolding du_by_glob_within str_ends_with ends_from is_plain
glob_sum = refl

-- Beside a directory "*" with a file "x" there is a directory "a" with a file "y": the pattern "*/*" finds both
-- files.
abbrev both_found : Glob
both_found pattern =
    if same_name pattern (42 ∷ slash ∷ 42 ∷ [])
    then (42 ∷ slash ∷ 120 ∷ [], file 8) ∷ (97 ∷ slash ∷ 121 ∷ [], file 16) ∷ []
    else []

abbrev star : Node
star = dir 8 true (entry (120 ∷ []) (file 8) no_more)

star_sum : du (42 ∷ []) star ≡ some 8192
unfolding du same_name
star_sum = refl

star_glob_sum : du_by_glob_within 1 both_found (42 ∷ []) star ≡ some 16384
unfolding du_by_glob_within add_found same_name str_ends_with ends_from is_plain
star_glob_sum = refl
