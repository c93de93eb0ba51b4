-- ===== src/Counter/FileLock.antt =====
-- adio/flock.c: 64 children that read a number from a file, add one to it and write it back, under
-- `lockf`. The lock is one per file, so it is that of thread/mutex.c; the counter is the file's text. A
-- child reads into the buffer that it has inherited from its parent, where `junk` stood before: nothing
-- ends the text that `read` puts there. `main` waits for any child that has exited, and prints nothing: what
-- is said of the file does not depend on the stage of `main`.
use mathlib.Core.Path.{subst}
use mathlib.Core.List.{append-nil}
use apue_pratice.Prelude.{
  take-all, drop-all, ℕ, zero, suc, ◌+◌, ◌≤◌, ◌<◌, ◌≡◌, refl, sym, ap, ◌∙◌, ◌⊎◌, inl, inr, Bool,
  true, List, [], ◌∷◌, ◌++◌, arith, length, take, drop,
}
use apue_pratice.Prelude.Int.{pos, ◌+ℤ◌}
use apue_pratice.Counter.Model.{Cell, Pc, left, Threads, Move, Reach}
use apue_pratice.Counter.Kept.{left_total}
use apue_pratice.Prelude.Decimal.{
  no_digits, digits, atoi, print_int, atoi-print_int, atoi-no_digits, length-digits_le,
  length-digits_le_fuel,
}
use apue_pratice.Counter.Mutex.{mutex}

abbrev pub child_count : ℕ
child_count = 64

abbrev pub buf_size : ℕ
buf_size = 4096

-- The buffer of `size` bytes after `read` at the start of a file with the bytes `file`.
unfoldable pub read_file : ℕ → List ℕ → List ℕ → List ℕ
read_file size junk file = let got = take size file in got ++ drop (length got) junk

-- The file after `snprintf`, `lseek` to 0 and `write`.
abbrev pub write_back : List ℕ → List ℕ → List ℕ
write_back buf file = let text = print_int (atoi buf +ℤ pos 1) in text ++ drop (length text) file

-- The file's text stands for `k`: the empty file stands for 0.
abbrev pub CountsTo : ℕ → List ℕ → Type 0
CountsTo k file = ((file ≡ []) × (k ≡ 0)) ⊎ (file ≡ print_int (pos k))

no_digits-drop : (n : ℕ) (xs : List ℕ) → no_digits xs ≡ true → no_digits (drop n xs) ≡ true
no_digits-drop zero xs h = h
no_digits-drop (suc n) [] h = refl
no_digits-drop (suc n) (x ∷ xs) h = ground (arith, no_digits-drop n xs)

-- A child reads the number that the file stands for.
read_number :
    (k size : ℕ) (junk file : List ℕ)
    → no_digits junk ≡ true
    → k < 10000000000
    → 10 ≤ size
    → CountsTo k file
    → atoi (read_file size junk file) ≡ pos k
unfolding read_file
read_number k size junk file n h b (inl (e, z)) =
    let nothing : take size file ≡ [] = ap (take size) e ∙ take-all size [] (omega arith) in
    ap atoi (ap (λ got. got ++ drop (length got) junk) nothing)
    ∙ atoi-no_digits junk n
    ∙ ap pos (sym z)
read_number k size junk file n h b (inr e) =
    let whole : take size file ≡ print_int (pos k) =
      ap (take size) e
      ∙ take-all size (digits 10 k) (omega (arith, length-digits_le_fuel 10 k, b)) in
    ap atoi (ap (λ got. got ++ drop (length got) junk) whole)
    ∙ atoi-print_int k (drop (length (digits 10 k)) junk) h
        (no_digits-drop (length (digits 10 k)) junk n)

pos_next : (k : ℕ) → pos k +ℤ pos 1 ≡ pos (suc k)
unfolding ◌+ℤ◌
pos_next k = ground arith

text_fits : (k : ℕ) (file : List ℕ) → CountsTo k file → length file ≤ length (digits 10 (suc k))
text_fits k file (inl (e, z)) = ground (arith, ap length e)
text_fits k file (inr e) = omega (arith, ap length e, length-digits_le 10 k (suc k) (omega arith))

-- And leaves the next one.
write_next :
    (k : ℕ) (buf file : List ℕ)
    → atoi buf ≡ pos k
    → CountsTo k file
    → CountsTo (suc k) (write_back buf file)
write_next k buf file a c =
    let one_more : print_int (atoi buf +ℤ pos 1) ≡ digits 10 (suc k) =
      ap (λ i. print_int (i +ℤ pos 1)) a ∙ ap print_int (pos_next k) in
    let gone : drop (length (digits 10 (suc k))) file ≡ [] =
      drop-all (length (digits 10 (suc k))) file (text_fits k file c) in
    inr (
      ap (λ text. text ++ drop (length text) file) one_more
      ∙ ap (λ r. digits 10 (suc k) ++ r) gone
      ∙ append-nil (digits 10 (suc k)))

-- The largest int.
abbrev pub int_most : ℕ
int_most = 2147483647

-- The file of a program whose children inherit `junk`: it stands for `k₀` at first. Past the largest
-- int, nothing is said of it.
module _ (junk : List ℕ) (clean : no_digits junk ≡ true) (k₀ : ℕ) (file₀ : List ℕ)
    (at_first : CountsTo k₀ file₀) where
  abbrev pub CountsFrom : ℕ → List ℕ → Type 0
  CountsFrom k file = k₀ + k ≤ int_most → CountsTo (k₀ + k) file

  pub counts_next :
      (k : ℕ) (file : List ℕ)
      → CountsFrom k file
      → CountsFrom (suc k) (write_back (read_file buf_size junk file) file)
  counts_next k file h b =
      let now : CountsTo (k₀ + k) file = h (omega (arith, b)) in
      subst (λ j. CountsTo j (write_back (read_file buf_size junk file) file))
        (let e : suc (k₀ + k) ≡ k₀ + suc k = omega arith in e)
        (write_next (k₀ + k) (read_file buf_size junk file) file
          (read_number (k₀ + k) buf_size junk file clean (omega (arith, b)) (omega arith) now) now)

  pub counts_first : CountsFrom 0 file₀
  counts_first b = subst (λ k. CountsTo k file₀) (let e : k₀ ≡ k₀ + 0 = omega arith in e) at_first

  abbrev pub number_file : Cell
  number_file = record {
    Memory = List ℕ;
    Loaded = List ℕ;
    empty = file₀;
    load = read_file buf_size junk;
    store = write_back;
    Holds = CountsFrom;
    holds_empty = counts_first;
    holds_store = counts_next;
  }

  abbrev pub Child : Bool → List ℕ → Pc (List ℕ) → Bool → List ℕ → Pc (List ℕ) → Type 0
  Child = Move mutex number_file

  -- Children of adio/flock.c that have inherited a buffer without digits, working on an empty file or on
  -- one with the decimal text of a number: when all `n` have left, in whatever order they ran, the file
  -- holds the decimal text of the number with `n` added, where that is an int and `n` is not 0.
  pub flock_counts :
      {n : ℕ} {s : Threads mutex number_file}
      → Reach mutex number_file n s
      → ((i : ℕ) → i < n → s.pcs i ≡ left)
      → 0 < n
      → k₀ + n ≤ int_most
      → s.mem ≡ print_int (pos (k₀ + n))
  flock_counts {n} {s} r all h b = elim (left_total mutex number_file r all b) [
    | inl (e, z) ↦ absurd (omega (arith, h, z))
    | inr e ↦ e
  ]
