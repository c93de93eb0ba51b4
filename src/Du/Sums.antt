-- ===== src/Du/Sums.antt =====
-- `du_by_glob` of fs/du.c adds up what `du` adds up, in another order.
use apue_pratice.Prelude.{
  ℕ, zero, suc, ◌≡◌, refl, sym, ap, ◌∙◌, ◌≢◌, inl, inr, true, false, Option, none, some, List, [],
  ◌∷◌, arith, Bool-cases,
}
use apue_pratice.Du.{
  Node, gone, file, dir, Entries, no_more, entry, ◌>>=?◌, join, add_u64, block_bytes, is_special,
  du, du_entries, ends_special, is_hidden, du_by_glob, glob_entries, du_by_glob_within, is_plain,
  Glob, Again,
}
use apue_pratice.Du.Passes.{
  bind_cong, bind_assoc, bind_swap, is_readable, all_readable, ends_special-eq-is_special,
  pass-takes, pass-skips, pass-special, pass-add,
}
use apue_pratice.Du.Names.{no_slash}

du-takes :
    (path name : List ℕ) (n : Node) (es : Entries) (r : ℕ)
    → is_special name ≡ false
    → du_entries path (entry name n es) r
      ≡ (du (join path name) n >>=? (λ x. du_entries path es (add_u64 r x)))
unfolding du_entries
du-takes path name n es r s = rw s

du-special :
    (path name : List ℕ) (n : Node) (es : Entries) (r : ℕ)
    → is_special name ≡ true
    → du_entries path (entry name n es) r ≡ du_entries path es r
unfolding du_entries
du-special path name n es r s = rw s

is_plain-join :
    (path name : List ℕ)
    → is_plain path ≡ true
    → is_plain name ≡ true
    → is_plain (join path name) ≡ true
unfolding is_plain
is_plain-join [] name p q = q
is_plain-join (c ∷ cs) name p q = ground (arith, p, is_plain-join cs name (ground (arith, p)) q)

module _ (glob : Glob) (again : Again) where
  abbrev passes : List ℕ → Entries → ℕ → Option ℕ
  passes path es r =
      glob_entries glob again path false es r >>=? glob_entries glob again path true es

  -- The entry of a special name adds nothing to either sum.
  passes-special :
      (path name : List ℕ) (n : Node) (es : Entries) (r : ℕ)
      → ends_special (join path name) ≡ true
      → passes path (entry name n es) r ≡ passes path es r
  passes-special path name n es r s =
      ap (λ o. o >>=? glob_entries glob again path true (entry name n es))
        (pass-special glob again path name false n es r s)
      ∙ bind_cong (glob_entries glob again path false es r)
          (glob_entries glob again path true (entry name n es))
          (glob_entries glob again path true es)
          (λ y. pass-special glob again path name true n es y s)

  -- An entry that the first pass takes.
  passes-shown :
      (path name : List ℕ) (n : Node) (es : Entries) (r : ℕ)
      → ends_special (join path name) ≡ false
      → is_hidden name ≡ false
      → passes path (entry name n es) r
        ≡ (du_by_glob glob again (join path name) n >>=? (λ x. passes path es (add_u64 r x)))
  passes-shown path name n es r s h =
      let sub = du_by_glob glob again (join path name) n in
      ap (λ o. o >>=? glob_entries glob again path true (entry name n es))
        (pass-takes glob again path name false n es r h s)
      ∙ bind_assoc sub (λ x. glob_entries glob again path false es (add_u64 r x))
          (glob_entries glob again path true (entry name n es))
      ∙ bind_cong sub
          (λ x.
            glob_entries glob again path false es (add_u64 r x)
            >>=? glob_entries glob again path true (entry name n es))
          (λ x. passes path es (add_u64 r x))
          (λ x.
            bind_cong (glob_entries glob again path false es (add_u64 r x))
              (glob_entries glob again path true (entry name n es))
              (glob_entries glob again path true es)
              (λ y. pass-skips glob again path name true n es y (λ e. cc)))

  -- An entry that the second pass takes.
  passes-hidden :
      (path name : List ℕ) (n : Node) (es : Entries) (r : ℕ)
      → ends_special (join path name) ≡ false
      → is_hidden name ≡ true
      → passes path (entry name n es) r
        ≡ (du_by_glob glob again (join path name) n >>=? (λ x. passes path es (add_u64 r x)))
  passes-hidden path name n es r s h =
      let sub = du_by_glob glob again (join path name) n in
      ap (λ o. o >>=? glob_entries glob again path true (entry name n es))
        (pass-skips glob again path name false n es r (λ e. cc))
      ∙ bind_cong (glob_entries glob again path false es r)
          (glob_entries glob again path true (entry name n es))
          (λ y. sub >>=? (λ x. glob_entries glob again path true es (add_u64 y x)))
          (λ y. pass-takes glob again path name true n es y h s)
      ∙ bind_swap (glob_entries glob again path false es r) sub
          (λ y x. glob_entries glob again path true es (add_u64 y x))
      ∙ bind_cong sub
          (λ x.
            glob_entries glob again path false es r
            >>=? (λ y. glob_entries glob again path true es (add_u64 y x)))
          (λ x. passes path es (add_u64 r x))
          (λ x. sym (
            ap (λ o. o >>=? glob_entries glob again path true es)
              (pass-add glob again path false es r x)
            ∙ bind_assoc (glob_entries glob again path false es r) (λ y. some (add_u64 y x))
                (glob_entries glob again path true es)))

  -- One round of `du` and both rounds of `du_by_glob`, when they agree on the entry and on the rest.
  passes-round :
      (path name : List ℕ) (n : Node) (es : Entries) (r : ℕ)
      → no_slash name ≡ true
      → name ≢ []
      → du_by_glob glob again (join path name) n ≡ du (join path name) n
      → ((x : ℕ) → passes path es x ≡ du_entries path es x)
      → passes path (entry name n es) r ≡ du_entries path (entry name n es) r
  passes-round path name n es r clean some_name sub rest = elim (Bool-cases (is_special name)) [
    | inl s ↦
        passes-special path name n es r (ends_special-eq-is_special path name clean some_name ∙ s)
        ∙ rest r
        ∙ sym (du-special path name n es r s)
    | inr s ↦
        let taken : passes path (entry name n es) r
            ≡ (du_by_glob glob again (join path name) n >>=? (λ x. passes path es (add_u64 r x))) =
          elim (Bool-cases (is_hidden name)) [
            | inl h ↦
                passes-hidden path name n es r
                  (ends_special-eq-is_special path name clean some_name ∙ s) h
            | inr h ↦
                passes-shown path name n es r
                  (ends_special-eq-is_special path name clean some_name ∙ s) h
          ] in
        taken
        ∙ ap (λ o. o >>=? (λ x. passes path es (add_u64 r x))) sub
        ∙ bind_cong (du (join path name) n) (λ x. passes path es (add_u64 r x))
            (λ x. du_entries path es (add_u64 r x)) (λ x. rest (add_u64 r x))
        ∙ sym (du-takes path name n es r s)
  ]

  mutual
    unfolding is_readable du du_by_glob

    node_sums :
        (path : List ℕ) (n : Node)
        → is_plain path ≡ true
        → is_readable n ≡ true
        → du_by_glob glob again path n ≡ du path n
    node_sums path gone p h = refl
    node_sums path (file blocks) p h = refl
    node_sums path (dir blocks false es) p h = cc
    node_sums path (dir blocks true es) p h = rw p (entry_sums path es p h (block_bytes blocks))

    entry_sums :
        (path : List ℕ) (es : Entries)
        → is_plain path ≡ true
        → all_readable es ≡ true
        → (r : ℕ) → passes path es r ≡ du_entries path es r
    entry_sums path no_more p h r = refl
    entry_sums path (entry name n es) p h r =
        passes-round path name n es r (ground arith) (λ e. ground arith)
          (node_sums (join path name) n (is_plain-join path name p (ground arith)) (ground arith))
          (entry_sums path es p (ground arith))

-- Where every directory can be opened, no name of an entry is empty or has a slash, and neither the path nor
-- a name has one of the characters `*`, `?`, `[` and backslash, which `glob` does not take for themselves: the
-- two ways of fs/du.c to add up a tree give the same number, or both end the program.
pub du_by_glob-eq-du :
    (k : ℕ) (glob : Glob) (path : List ℕ) (n : Node)
    → is_plain path ≡ true
    → is_readable n ≡ true
    → du_by_glob_within k glob path n ≡ du path n
unfolding du_by_glob_within
du_by_glob-eq-du zero glob path n p h = node_sums glob (λ q m. none) path n p h
du_by_glob-eq-du (suc k) glob path n p h = node_sums glob (du_by_glob_within k glob) path n p h
