-- ===== src/Signal/Cat.antt =====
-- signal/cat.c: a cat whose handler of SIGALRM copies at most CPS bytes; `main` sets an alarm again after each.
-- The file opens, and what is put to the output is not refused.
mod Tests
use Prim.Native.Nat.{min}
use native.Mathlib.Decide.{ℕ_discrete}
use mathlib.Core.List.{append_assoc}
use apue_pratice.Prelude.{
  ℕ, zero, suc, ◌+◌, ◌-◌, ◌*◌, ◌/◌, ◌%◌, ◌^◌, ◌≤◌, ◌<◌, ◌≡◌, refl, sym, ap, ◌∙◌, ◌≢◌, ◌↔◌, ◌⊎◌, inl,
  inr, Bool, true, false, ◌&&◌, ◌||◌, Option, none, some, List, [], ◌∷◌, ◌++◌, map, arith, ltb, leb,
  ◌==◌, if◌then◌else◌, Bool-cases, Option-cases, length, get_elem?, get_or, set, length-set,
  get_elem?-set_self, get_elem?-set_ne, length-append, take, drop, replicate, length-replicate,
  length-map, take-append-drop, length-take, length-drop,
}
use apue_pratice.Prelude.Int.{
  ℤ, pos, negsuc, pos_part, neg_part, ◌+ℤ◌, ◌-ℤ◌, ◌≤ℤ◌, leb_ℤ, ltb_ℤ, eqb_ℤ, int_laws, eq_of_parts,
}
use apue_pratice.Prelude.Outcome.{Outcome, done, fault, blocked, ◌>>=◌, >>=-eq-done}
use apue_pratice.Prelude.CInt.{
  fits, checked, add_int, sub_int, min_int, int_min, int_max, add_int-done, sub_int-done,
  fits_of_le, add_int-eq, sub_int-eq,
}

-- CPS
abbrev pub cps : ℕ
cps = 10

-- What `read` answers in a run of the handler: so many bytes and one more, as far as they are asked for and
-- there; EINTR; or another error.
pub data Answer : Type 0 where
  got : ℕ → Answer
  interrupted : Answer
  failed : Answer

-- The rest of the file, the output, and whether the program has ended.
pub record Cat : Type 0 where
  pub file : List ℕ
  pub output : List ℕ
  pub over : Bool

-- What `read(src, buf, size)` gives: none at the end of the file, and at least one byte before it.
abbrev pub read_at_most : ℕ → ℕ → List ℕ → ℕ
read_at_most size k file = min (suc k) (min size (length file))

-- `handle`
abbrev pub handle : Answer → Cat → Cat
handle (got k) c =
    let eof = read_at_most cps k c.file in
    record c { file = drop eof c.file; output = c.output ++ take eof c.file }
handle interrupted c = c
handle failed c = record c { over = true }

-- The loop of `main`: one run of the handler for each alarm.
unfoldable pub cat_loop : List Answer → Cat → Cat
cat_loop [] c = c
cat_loop (a ∷ more) c = if (handle a c).over then handle a c else cat_loop more (handle a c)

abbrev pub all_got : List Answer → Bool
all_got [] = true
all_got (got k ∷ more) = all_got more
all_got (interrupted ∷ more) = false
all_got (failed ∷ more) = false

no_more : (xs : List ℕ) → length xs ≤ 0 → xs ≡ []
no_more [] h = refl
no_more (x ∷ xs) h = absurd (omega (arith, h))

pub record Copied (answers : List Answer) (file out : List ℕ) (c : Cat) : Type 0 where
  pub same : c.output ++ c.file ≡ out ++ file
  pub grows : length out ≤ length c.output
  pub slowly : length c.output ≤ length out + cps * length answers
  pub goes_on :
      all_got answers ≡ true
      → (c.over ≡ false) × ((c.file ≡ []) ⊎ (length out + length answers ≤ length c.output))

got_more :
    (n k : ℕ) (answers : List Answer) (file out : List ℕ) (c : Cat)
    → n ≤ cps
    → n ≤ length file
    → (n ≡ 0 → file ≡ [])
    → Copied answers (drop n file) (out ++ take n file) c
    → Copied (got k ∷ answers) file out c
got_more n k answers file out c b l z r = record {
  same =
      Copied.same r
      ∙ append_assoc out (take n file) (drop n file)
      ∙ ap (λ x. out ++ x) (take-append-drop n file);
  grows = omega (arith, Copied.grows r, longer);
  slowly = omega (arith, Copied.slowly r, longer, b);
  goes_on = λ g. (
    (Copied.goes_on r g).0,
    elim (ℕ_discrete n 0) [
      | yes e ↦ inl (
          no_more c.file (
            omega (
              arith,
              ap length (Copied.same r),
              length-append c.output c.file,
              length-append (out ++ take n file) (drop n file),
              Copied.grows r,
              length-drop n file,
              ap length (z e),
            )))
      | no e ↦ elim (Copied.goes_on r g).1 [
        | inl f ↦ inl f
        | inr h ↦ inr (omega (arith, h, longer, e))
      ]
    ],
  );
}
  where
    longer : length (out ++ take n file) ≡ length out + n
    longer = omega (arith, length-append out (take n file), length-take n file, l)

cat_loop-Copied :
    (answers : List Answer) (file out : List ℕ)
    → Copied answers file out
        (cat_loop answers (record { file = file; output = out; over = false }))
unfolding cat_loop
cat_loop-Copied [] file out = record {
  same = refl;
  grows = omega arith;
  slowly = omega arith;
  goes_on = λ g. (refl, inr (omega arith));
}
cat_loop-Copied (got k ∷ more) file out =
    let n : ℕ = read_at_most cps k file in
    got_more n k more file out _ (ground arith) (ground arith)
      (λ z. no_more file (ground (arith, z)))
      (cat_loop-Copied more (drop n file) (out ++ take n file))
cat_loop-Copied (interrupted ∷ more) file out =
    let r : Copied more file out
        (cat_loop more (record { file = file; output = out; over = false })) =
      cat_loop-Copied more file out in
    record {
      same = Copied.same r;
      grows = Copied.grows r;
      slowly = omega (arith, Copied.slowly r);
      goes_on = λ g. absurd (let no : false ≢ true = λ e. cc in no g);
    }
cat_loop-Copied (failed ∷ more) file out = record {
  same = refl;
  grows = omega arith;
  slowly = omega arith;
  goes_on = λ g. absurd (let no : false ≢ true = λ e. cc in no g);
}

-- signal/cat.c, from the start on and whatever each `read` answers: the output and the rest of the file are
-- the file, the output has at most ten bytes for each alarm, and where no read failed or was interrupted, it has at least one byte for each alarm
-- or is the whole file, and the program has not ended, not even at the end of the file.
pub cat_loop-copies :
    (answers : List Answer) (file : List ℕ)
    → let c : Cat = cat_loop answers (record { file = file; output = []; over = false }) in
      (c.output ++ c.file ≡ file)
      × (length c.output ≤ cps * length answers)
      × (all_got answers ≡ true
          → (c.over ≡ false) × ((c.file ≡ []) ⊎ (length answers ≤ length c.output)))
cat_loop-copies answers file =
    let r : Copied answers file []
        (cat_loop answers (record { file = file; output = []; over = false })) =
      cat_loop-Copied answers file [] in
    (
      Copied.same r,
      omega (arith, Copied.slowly r),
      λ g. (
        (Copied.goes_on r g).0,
        elim (Copied.goes_on r g).1 [ inl f ↦ inl f | inr h ↦ inr (omega (arith, h)) ],
      ),
    )
