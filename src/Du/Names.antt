-- ===== src/Du/Names.antt =====
-- `str_ends_with` of fs/du.c on the paths of the entries of a directory.
use mathlib.Core.Bool.{not}
use apue_pratice.Prelude.{
  ℕ, zero, suc, ◌+◌, ◌-◌, ◌≡◌, refl, ap, ◌≢◌, Bool, true, ◌&&◌, List, [], ◌∷◌, ◌++◌, arith, ◌==◌,
  length, get_or, length-append,
}
use apue_pratice.Du.{slash, dot, same_name, ends_from, str_ends_with, join}

-- A name of an entry has no slash.
unfoldable pub no_slash : List ℕ → Bool
no_slash [] = true
no_slash (c ∷ cs) = not (c == slash) && no_slash cs

get_or-append :
    (xs ys : List ℕ) (i k : ℕ) → k ≡ length xs + i → get_or (xs ++ ys) k 0 ≡ get_or ys i 0
get_or-append [] ys i k h = ap (λ j. get_or ys j 0) (omega (arith, h))
get_or-append (x ∷ xs) ys i zero h = absurd (omega (arith, h))
get_or-append (x ∷ xs) ys i (suc k) h = get_or-append xs ys i k (omega (arith, h))

-- No byte of a name is a slash.
get_or-no_slash : (name : List ℕ) (i : ℕ) → no_slash name ≡ true → get_or name i 0 ≢ slash
unfolding no_slash
get_or-no_slash [] i h = ground arith
get_or-no_slash (c ∷ cs) zero h = ground arith
get_or-no_slash (c ∷ cs) (suc i) h = get_or-no_slash cs i (ground arith)

length-join : (path name : List ℕ) → length (join path name) ≡ length path + suc (length name)
length-join path name = length-append path (slash ∷ name)

-- The byte `i` from the end, of a path of an entry.
join-back :
    (path name : List ℕ) (i j : ℕ)
    → i + j ≡ length name
    → get_or (join path name) (length (join path name) - 1 - i) 0 ≡ get_or (slash ∷ name) j 0
join-back path name i j h =
    get_or-append path (slash ∷ name) j _ (omega (arith, h, length-join path name))

pub ends_dot :
    (path name : List ℕ)
    → no_slash name ≡ true
    → name ≢ []
    → str_ends_with (join path name) (slash ∷ dot ∷ []) ≡ same_name name (dot ∷ [])
unfolding str_ends_with same_name ends_from
ends_dot path [] clean some_name = absurd (some_name refl)
ends_dot path (a ∷ []) clean some_name =
    ground
      (arith, length-join path (a ∷ []), join-back path (a ∷ []) 0 1, join-back path (a ∷ []) 1 0)
ends_dot path (a ∷ b ∷ name) clean some_name =
    let full = a ∷ b ∷ name in
    ground (
      arith,
      length-join path full,
      join-back path full 0 (suc (suc (length name))),
      join-back path full 1 (suc (length name)),
      get_or-no_slash full (length name) clean,
    )

pub ends_dots :
    (path name : List ℕ)
    → no_slash name ≡ true
    → name ≢ []
    → str_ends_with (join path name) (slash ∷ dot ∷ dot ∷ []) ≡ same_name name (dot ∷ dot ∷ [])
unfolding str_ends_with same_name ends_from
ends_dots path [] clean some_name = absurd (some_name refl)
ends_dots path (a ∷ []) clean some_name =
    ground
      (arith, length-join path (a ∷ []), join-back path (a ∷ []) 0 1, join-back path (a ∷ []) 1 0)
ends_dots path (a ∷ b ∷ []) clean some_name = ground (
  arith,
  length-join path (a ∷ b ∷ []),
  join-back path (a ∷ b ∷ []) 0 2,
  join-back path (a ∷ b ∷ []) 1 1,
  join-back path (a ∷ b ∷ []) 2 0,
)
ends_dots path (a ∷ b ∷ c ∷ name) clean some_name =
    let full = a ∷ b ∷ c ∷ name in
    ground (
      arith,
      length-join path full,
      join-back path full 2 (suc (length name)),
      get_or-no_slash full (length name) clean,
    )
