-- ===== src/Copy/Texts.antt =====
-- stdio/print_file.c, stdio/fgets.c and stdio/line_char_count.c, which read a file line by line. The file is the
-- list of its bytes, and reading it does not fail.
use mathlib.Core.Path.{ap₂}
use apue_pratice.Prelude.{
  ℕ, zero, suc, ◌+◌, ◌-◌, ◌≤◌, ◌≡◌, refl, ap, ◌∙◌, Bool, true, false, ◌&&◌, Option, none, some,
  List, [], ◌∷◌, ◌++◌, arith, ltb, ◌==◌, if◌then◌else◌, length, length-append,
}
use apue_pratice.Prelude.Outcome.{Outcome, done, fault, blocked, ◌>>=◌}
use apue_pratice.Prelude.Decimal.{no_nul}

-- '\n'
abbrev pub newline : ℕ
newline = 10

-- The bytes up to a line feed, `n` at most, and what follows them.
unfoldable pub take_line : ℕ → List ℕ → List ℕ × List ℕ
take_line zero file = ([], file)
take_line (suc n) [] = ([], [])
take_line (suc n) (c ∷ file) =
    let rest = take_line n file in if c == newline then (c ∷ [], file) else (c ∷ rest.0, rest.1)

-- A string ends at its first NUL.
unfoldable pub until_nul : List ℕ → List ℕ
until_nul [] = []
until_nul (c ∷ cs) = let rest = until_nul cs in if c == 0 then [] else c ∷ rest

-- The loop of print_file.c over `fgets`, with a buffer of `size` bytes, in at most `fuel` rounds.
unfoldable pub print_lines : ℕ → ℕ → List ℕ → Outcome (List ℕ)
print_lines fuel size [] = done []
print_lines zero size (c ∷ file) = blocked
print_lines (suc fuel) size (c ∷ file) =
    let line = take_line (size - 1) (c ∷ file) in
    let rest = print_lines fuel size line.1 in rest >>= λ out. done (until_nul line.0 ++ out)

-- BUF_SIZE of print_file.c
abbrev pub print_size : ℕ
print_size = 32

-- `main` of print_file.c, which prints nothing without a file.
abbrev pub print_main : ℕ → ℕ → Option (List ℕ) → Outcome (List ℕ)
print_main fuel argc none = done []
print_main fuel argc (some file) = if ltb argc 2 then done [] else print_lines fuel print_size file

-- BUF_SIZE of fgets.c
abbrev pub fgets_size : ℕ
fgets_size = 5

-- The loop of fgets.c: what it prints, a line feed behind each piece, and how far it counts `n`.
unfoldable pub fgets_lines : ℕ → List ℕ → Outcome (List ℕ × ℕ)
fgets_lines fuel [] = done ([], 1)
fgets_lines zero (c ∷ file) = blocked
fgets_lines (suc fuel) (c ∷ file) =
    let line = take_line (fgets_size - 1) (c ∷ file) in
    let rest = fgets_lines fuel line.1 in
    rest >>= λ r. done (until_nul line.0 ++ newline ∷ r.0, suc r.1)

-- `main` of fgets.c, which goes on when the file could not be opened.
abbrev pub fgets_main : ℕ → Option (List ℕ) → Outcome (List ℕ × ℕ)
fgets_main fuel none = fault
fgets_main fuel (some file) = fgets_lines fuel file

-- The loop of line_char_count.c from line `n` on: the numbers of the lines and of their bytes. At the end of
-- the file `getline` leaves a new buffer, of which `junk` stands before the first NUL, and that is counted
-- as one line more.
unfoldable pub count_lines : ℕ → ℕ → List ℕ → List ℕ → Outcome (List (ℕ × ℕ))
count_lines fuel n junk [] = done ((n, length junk) ∷ [])
count_lines zero n junk (c ∷ file) = blocked
count_lines (suc fuel) n junk (c ∷ file) =
    let line = take_line (length (c ∷ file)) (c ∷ file) in
    let rest = count_lines fuel (n + 1) junk line.1 in
    rest >>= λ ls. done ((n, length (until_nul line.0)) ∷ ls)

take_line-append : (n : ℕ) (file : List ℕ) → (take_line n file).0 ++ (take_line n file).1 ≡ file
unfolding take_line
take_line-append zero file = refl
take_line-append (suc n) [] = refl
take_line-append (suc n) (c ∷ file) = ground (arith, take_line-append n file)

take_line_le : (n : ℕ) (file : List ℕ) → length (take_line n file).1 ≤ length file
take_line_le n file = omega (
  arith,
  ap length (take_line-append n file),
  length-append (take_line n file).0 (take_line n file).1,
)

take_line-shorter :
    (n c : ℕ) (file : List ℕ) → length (take_line (suc n) (c ∷ file)).1 ≤ length file
unfolding take_line
take_line-shorter n c file = ground (arith, take_line_le n file)

no_nul-take_line :
    (n : ℕ) (file : List ℕ)
    → no_nul file ≡ true
    → (no_nul (take_line n file).0 ≡ true) × (no_nul (take_line n file).1 ≡ true)
unfolding take_line
no_nul-take_line zero file h = (refl, h)
no_nul-take_line (suc n) [] h = (refl, refl)
no_nul-take_line (suc n) (c ∷ file) h =
    let rest : (no_nul (take_line n file).0 ≡ true) × (no_nul (take_line n file).1 ≡ true) =
      no_nul-take_line n file (ground (arith, h)) in
    ground (arith, h, rest)

until_nul-no_nul : (line : List ℕ) → no_nul line ≡ true → until_nul line ≡ line
unfolding until_nul
until_nul-no_nul [] h = refl
until_nul-no_nul (c ∷ line) h = ground (arith, until_nul-no_nul line, h)

-- print_file.c prints a file without NUL bytes as it is, whatever the length of its lines, and needs at
-- most one round for each byte.
pub print_lines-whole :
    (fuel size : ℕ) (file : List ℕ)
    → 2 ≤ size
    → length file ≤ fuel
    → no_nul file ≡ true
    → print_lines fuel size file ≡ done file
unfolding print_lines
print_lines-whole fuel size [] s f n = refl
print_lines-whole zero size (c ∷ file) s f n = absurd (omega (arith, f))
print_lines-whole (suc fuel) zero (c ∷ file) s f n = absurd (omega (arith, s))
print_lines-whole (suc fuel) (suc zero) (c ∷ file) s f n = absurd (omega (arith, s))
print_lines-whole (suc fuel) (suc (suc m)) (c ∷ file) s f n =
    let line : List ℕ = (take_line (suc m) (c ∷ file)).0 in
    let rest : List ℕ = (take_line (suc m) (c ∷ file)).1 in
    let clean : (no_nul line ≡ true) × (no_nul rest ≡ true) =
      no_nul-take_line (suc m) (c ∷ file) n in
    let later : print_lines fuel (suc (suc m)) rest ≡ done rest =
      print_lines-whole fuel (suc (suc m)) rest s (omega (arith, f, take_line-shorter m c file))
        clean.1 in
    ap
      (λ k. print_lines fuel (suc (suc m)) (take_line k (c ∷ file)).1 >>= λ out.
        done (until_nul (take_line k (c ∷ file)).0 ++ out))
      (let e : suc (suc m) - 1 ≡ suc m = omega arith in e)
    ∙ ap (λ o. o >>= λ out. done (until_nul line ++ out)) later
    ∙ ap (λ l. done (l ++ rest)) (until_nul-no_nul line clean.0)
    ∙ ap done (take_line-append (suc m) (c ∷ file))

abbrev pub joined : List (List ℕ) → List ℕ
joined [] = []
joined (l ∷ ls) = l ++ joined ls

-- A piece with a line feed at its end at most.
abbrev pub is_line : List ℕ → Bool
is_line [] = true
is_line (c ∷ []) = true
is_line (c ∷ d ∷ cs) = if c == newline then false else is_line (d ∷ cs)

abbrev pub all_lines : List (List ℕ) → Bool
all_lines [] = true
all_lines (l ∷ ls) = is_line l && all_lines ls

-- The numbers of the lines from `n` on, with their lengths.
abbrev pub numbered : ℕ → List (List ℕ) → List (ℕ × ℕ)
numbered n [] = []
numbered n (l ∷ ls) = (n, length l) ∷ numbered (n + 1) ls

is_line-take_line : (n : ℕ) (file : List ℕ) → is_line (take_line n file).0 ≡ true
unfolding take_line
is_line-take_line zero file = refl
is_line-take_line (suc n) [] = refl
is_line-take_line (suc n) (c ∷ file) = ground (arith, is_line-take_line n file)

-- line_char_count.c, from line `n` on, cuts a file without NUL bytes into pieces with a line feed at their end
-- at most, reports each with its number and its length, and at the end of the file one line more, with
-- the length of what a new buffer holds.
pub count_lines-whole :
    (fuel n : ℕ) (junk file : List ℕ)
    → length file ≤ fuel
    → no_nul file ≡ true
    → (ls : List (List ℕ)) × (joined ls ≡ file)
      × (all_lines ls ≡ true)
      × (count_lines fuel n junk file ≡ done (numbered n ls ++ (n + length ls, length junk) ∷ []))
unfolding count_lines
count_lines-whole fuel n junk [] f z =
    ([], refl, refl, ap (λ k. done ((k, length junk) ∷ [])) (let e : n ≡ n + 0 = omega arith in e))
count_lines-whole zero n junk (c ∷ file) f z = absurd (omega (arith, f))
count_lines-whole (suc fuel) n junk (c ∷ file) f z =
    let size : ℕ = length (c ∷ file) in
    let line : List ℕ = (take_line size (c ∷ file)).0 in
    let rest : List ℕ = (take_line size (c ∷ file)).1 in
    let clean : (no_nul line ≡ true) × (no_nul rest ≡ true) = no_nul-take_line size (c ∷ file) z in
    let (ls, whole, lines, counted) =
      count_lines-whole fuel (n + 1) junk rest
        (omega (arith, f, take_line-shorter (length file) c file)) clean.1 in
    (
      line ∷ ls,
      ap (λ r. line ++ r) whole ∙ take_line-append size (c ∷ file),
      ground (arith, is_line-take_line size (c ∷ file), lines),
      ap (λ o. o >>= λ ks. done ((n, length (until_nul line)) ∷ ks)) counted
          ∙ ap₂ (λ l k. done ((n, length l) ∷ (numbered (n + 1) ls ++ (k, length junk) ∷ [])))
              (until_nul-no_nul line clean.0)
              (let e : n + 1 + length ls ≡ n + suc (length ls) = omega arith in e),
    )
