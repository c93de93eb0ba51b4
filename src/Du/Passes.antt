-- ===== src/Du/Passes.antt =====
-- One pass of `du_by_glob` in fs/du.c over the entries of a directory.
use mathlib.Core.Bool.{not}
use apue_pratice.Prelude.{
  ℕ, ◌≡◌, refl, sym, ap, ◌∙◌, ◌≢◌, ◌⊎◌, inl, inr, Bool, true, false, ◌&&◌, Option, none, some, List,
  [], ◌∷◌, arith, ◌==◌, Bool-cases, length,
}
use apue_pratice.Du.{
  Node, gone, file, dir, Entries, no_more, entry, ◌>>=?◌, same_name, join, add_u64, is_special,
  ends_special, is_hidden, du_by_glob, glob_entries, is_plain, Glob, Again,
}
use apue_pratice.Du.Names.{no_slash, ends_dot, ends_dots}

pub bind_cong :
    {A B : Type 0} (o : Option A) (f g : A → Option B)
    → ((a : A) → f a ≡ g a)
    → (o >>=? f) ≡ (o >>=? g)
bind_cong none f g h = refl
bind_cong (some a) f g h = h a

pub bind_assoc :
    {A B C : Type 0} (o : Option A) (f : A → Option B) (g : B → Option C)
    → (o >>=? f >>=? g) ≡ (o >>=? (λ a. f a >>=? g))
bind_assoc none f g = refl
bind_assoc (some a) f g = refl

pub bind_swap :
    {A B C : Type 0} (o : Option A) (s : Option B) (f : A → B → Option C)
    → (o >>=? (λ a. s >>=? (λ b. f a b))) ≡ (s >>=? (λ b. o >>=? (λ a. f a b)))
bind_swap none none f = refl
bind_swap none (some b) f = refl
bind_swap (some a) none f = refl
bind_swap (some a) (some b) f = refl

add_u64-swap : (r x y : ℕ) → add_u64 (add_u64 r x) y ≡ add_u64 (add_u64 r y) x
add_u64-swap r x y = omega arith

-- Every entry has a name without a slash and without a character of a pattern, and every directory can be opened.
unfoldable mutual
  pub is_readable : Node → Bool
  is_readable gone = true
  is_readable (file blocks) = true
  is_readable (dir blocks opens es) = opens && all_readable es

  pub all_readable : Entries → Bool
  all_readable no_more = true
  all_readable (entry name n es) =
      no_slash name && is_plain name && not (length name == 0) && is_readable n && all_readable es

pub ends_special-eq-is_special :
    (path name : List ℕ)
    → no_slash name ≡ true
    → name ≢ []
    → ends_special (join path name) ≡ is_special name
ends_special-eq-is_special path name clean some_name =
    cc (ends_dot path name clean some_name, ends_dots path name clean some_name)

special-hidden : (name : List ℕ) → is_special name ≡ true → is_hidden name ≡ true
unfolding same_name
special-hidden [] h = ground arith
special-hidden (c ∷ cs) h = ground arith

same-or_not : (a b : Bool) → (a ≡ b) ⊎ (a ≢ b)
same-or_not true true = inl refl
same-or_not true false = inr (λ e. cc)
same-or_not false true = inr (λ e. cc)
same-or_not false false = inl refl

module _ (glob : Glob) (again : Again) where
  -- What one round of one pass does with an entry.
  pub pass-takes :
      (path name : List ℕ) (hidden : Bool) (n : Node) (es : Entries) (r : ℕ)
      → is_hidden name ≡ hidden
      → ends_special (join path name) ≡ false
      → glob_entries glob again path hidden (entry name n es) r ≡ (
          du_by_glob glob again (join path name) n
          >>=? (λ x. glob_entries glob again path hidden es (add_u64 r x)))
  unfolding glob_entries
  pass-takes path name true n es r h s = rw (h, s)
  pass-takes path name false n es r h s = rw (h, s)

  pub pass-skips :
      (path name : List ℕ) (hidden : Bool) (n : Node) (es : Entries) (r : ℕ)
      → is_hidden name ≢ hidden
      → glob_entries glob again path hidden (entry name n es) r
        ≡ glob_entries glob again path hidden es r
  unfolding glob_entries
  pass-skips path name true n es r h = ground arith
  pass-skips path name false n es r h = ground arith

  pub pass-special :
      (path name : List ℕ) (hidden : Bool) (n : Node) (es : Entries) (r : ℕ)
      → ends_special (join path name) ≡ true
      → glob_entries glob again path hidden (entry name n es) r
        ≡ glob_entries glob again path hidden es r
  unfolding glob_entries
  pass-special path name true n es r s = ground arith
  pass-special path name false n es r s = ground arith

  pass-end :
      (path : List ℕ) (hidden : Bool) (r x : ℕ)
      → glob_entries glob again path hidden no_more (add_u64 r x)
        ≡ (glob_entries glob again path hidden no_more r >>=? (λ y. some (add_u64 y x)))
  unfolding glob_entries
  pass-end path hidden r x = refl

  -- A pass adds to what is there already.
  pub pass-add :
      (path : List ℕ) (hidden : Bool) (es : Entries) (r x : ℕ)
      → glob_entries glob again path hidden es (add_u64 r x)
        ≡ (glob_entries glob again path hidden es r >>=? (λ y. some (add_u64 y x)))
  pass-add path hidden no_more r x = pass-end path hidden r x
  pass-add path hidden (entry name n es) r x = elim (Bool-cases (ends_special (join path name))) [
    | inl s ↦ rw (
      pass-special path name hidden n es (add_u64 r x) s,
      pass-special path name hidden n es r s,
      pass-add path hidden es r x,
    )
    | inr s ↦ elim (same-or_not (is_hidden name) hidden) [
      | inr h ↦ rw (
        pass-skips path name hidden n es (add_u64 r x) h,
        pass-skips path name hidden n es r h,
        pass-add path hidden es r x,
      )
      | inl h ↦
          pass-takes path name hidden n es (add_u64 r x) h s
          ∙ bind_cong (du_by_glob glob again (join path name) n)
              (λ y. glob_entries glob again path hidden es (add_u64 (add_u64 r x) y))
              (λ y.
                glob_entries glob again path hidden es (add_u64 r y) >>=? (λ z. some (add_u64 z x)))
              (λ y.
                ap (glob_entries glob again path hidden es) (add_u64-swap r x y)
                ∙ pass-add path hidden es (add_u64 r y) x)
          ∙ sym (
              bind_assoc (du_by_glob glob again (join path name) n)
                (λ y. glob_entries glob again path hidden es (add_u64 r y))
                (λ z. some (add_u64 z x)))
          ∙ ap (λ o. o >>=? (λ z. some (add_u64 z x)))
              (sym (pass-takes path name hidden n es r h s))
    ]
  ]
