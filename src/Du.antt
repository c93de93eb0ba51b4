-- ===== src/Du.antt =====
-- fs/du.c: the disk usage of a tree of files, once by `readdir` and once by `glob`. A path is the list
-- of its bytes. The tree does not change while the program runs.
pub mod Names
pub mod Passes
pub mod Sums
pub mod Units
mod Tests
use mathlib.Core.Bool.{not}
use apue_pratice.Prelude.{
  ℕ, zero, suc, ◌+◌, ◌-◌, ◌*◌, ◌/◌, ◌%◌, ◌^◌, ◌≤◌, ◌<◌, ◌≡◌, refl, sym, ap, ◌∙◌, ◌≢◌, ◌↔◌, ◌⊎◌, inl,
  inr, Bool, true, false, ◌&&◌, ◌||◌, Option, none, some, List, [], ◌∷◌, ◌++◌, map, arith, ltb, leb,
  ◌==◌, if◌then◌else◌, Bool-cases, Option-cases, length, get_elem?, get_or, set, length-set,
  get_elem?-set_self, get_elem?-set_ne, length-append, take, drop, replicate, length-replicate,
  length-map, take-append-drop, length-take, length-drop,
}
use apue_pratice.Prelude.Int.{
  ℤ, pos, negsuc, pos_part, neg_part, ◌+ℤ◌, ◌-ℤ◌, ◌≤ℤ◌, leb_ℤ, ltb_ℤ, eqb_ℤ, int_laws, eq_of_parts,
}
use apue_pratice.Prelude.Outcome.{Outcome, done, fault, blocked, ◌>>=◌, >>=-eq-done}
use apue_pratice.Prelude.CInt.{
  fits, checked, add_int, sub_int, min_int, int_min, int_max, add_int-done, sub_int-done,
  fits_of_le, add_int-eq, sub_int-eq,
}

-- What `lstat` and `readdir` find: a path on which `lstat` fails, a file with its `st_blocks`, or a
-- directory with its `st_blocks`, whether it can be opened, and its entries.
mutual
  pub data Node : Type 0 where
    gone : Node
    file : ℕ → Node
    dir : ℕ → Bool → Entries → Node

  -- The name and the node of each entry; `.` and `..` are entries as well.
  pub data Entries : Type 0 where
    no_more : Entries
    entry : List ℕ → Node → Entries → Entries

-- What follows a call that may have ended the program.
infixl 5 ◌>>=?◌
abbrev pub ◌>>=?◌ : {A B : Type 0} → Option A → (A → Option B) → Option B
none >>=? f = none
some a >>=? f = f a

abbrev pub slash : ℕ
slash = 47

abbrev pub dot : ℕ
dot = 46

-- `strcmp(a, b) == 0`
unfoldable pub same_name : List ℕ → List ℕ → Bool
same_name [] [] = true
same_name [] (y ∷ ys) = false
same_name (x ∷ xs) [] = false
same_name (x ∷ xs) (y ∷ ys) = (x == y) && same_name xs ys

-- The loop of `str_ends_with`, with `n` rounds to go from round `i` on.
unfoldable pub ends_from : ℕ → ℕ → List ℕ → List ℕ → Bool
ends_from zero i src suffix = true
ends_from (suc n) i src suffix =
    let rest = ends_from n (i + 1) src suffix in
    if get_or src (length src - 1 - i) 0 == get_or suffix (length suffix - 1 - i) 0
    then rest
    else false

unfoldable pub str_ends_with : List ℕ → List ℕ → Bool
unfolding ends_from
str_ends_with src suffix =
    if ltb (length src) (length suffix) then false else ends_from (length suffix) 0 src suffix

-- `path`, `/` and `name`.
abbrev pub join : List ℕ → List ℕ → List ℕ
join path name = path ++ slash ∷ name

-- Addition of `uint64_t`.
abbrev pub add_u64 : ℕ → ℕ → ℕ
add_u64 a b = (a + b) % 18446744073709551616

abbrev pub block_bytes : ℕ → ℕ
block_bytes blocks = (blocks * 512) % 18446744073709551616

-- The test of `du` on the name of an entry.
abbrev pub is_special : List ℕ → Bool
is_special name = same_name name (dot ∷ []) || same_name name (dot ∷ dot ∷ [])

-- `du`; `none` is `exit(1)`.
unfoldable mutual
  pub du : List ℕ → Node → Option ℕ
  du path gone = none
  du path (file blocks) = some (block_bytes blocks)
  du path (dir blocks opens es) =
      let r = du_entries path es (block_bytes blocks) in if opens then r else none

  -- The loop over `readdir`, with `r` so far.
  pub du_entries : List ℕ → Entries → ℕ → Option ℕ
  du_entries path no_more r = some r
  du_entries path (entry name n es) r =
      let sub = du (join path name) n in
      let skipped = du_entries path es r in
      let added = sub >>=? (λ x. du_entries path es (add_u64 r x)) in
      if is_special name then skipped else added

-- The test of `du_by_glob` on a path.
abbrev pub ends_special : List ℕ → Bool
ends_special path =
    str_ends_with path (slash ∷ dot ∷ []) || str_ends_with path (slash ∷ dot ∷ dot ∷ [])

-- Whether `/*` matches a name, or `/.*`.
abbrev pub is_hidden : List ℕ → Bool
is_hidden [] = false
is_hidden (c ∷ cs) = c == dot

-- Whether `glob` takes each character of a path for itself: `*`, `?`, `[` and the backslash it does not.
unfoldable pub is_plain : List ℕ → Bool
is_plain [] = true
is_plain (c ∷ cs) = not (c == 42 || c == 63 || c == 91 || c == 92) && is_plain cs

-- What the C library's `glob` finds for a pattern that is not a plain path and `/*` or `/.*`: paths, each with
-- what stands there.
abbrev pub Glob : Type 0
Glob = List ℕ → List (List ℕ × Node)

-- The call of `du_by_glob` on a path that `glob` has found elsewhere.
abbrev pub Again : Type 0
Again = List ℕ → Node → Option ℕ

-- The loop over paths that `glob` has found elsewhere than in the directory.
unfoldable pub add_found : Again → List (List ℕ × Node) → ℕ → Option ℕ
add_found again [] r = some r
add_found again ((path, n) ∷ found) r =
    let skipped = add_found again found r in
    let added = again path n >>=? (λ x. add_found again found (add_u64 r x)) in
    if ends_special path then skipped else added

module _ (glob : Glob) (again : Again) where
  -- `du_by_glob`: the paths that `glob` finds for `/*` come first, then those for `/.*`. Behind a plain
  -- path these are entries of the directory, and one that cannot be opened has none.
  unfoldable mutual
    pub du_by_glob : List ℕ → Node → Option ℕ
    du_by_glob path gone = none
    du_by_glob path (file blocks) = some (block_bytes blocks)
    du_by_glob path (dir blocks opens es) =
        let all = glob_entries path false es (block_bytes blocks) >>=? glob_entries path true es in
        let elsewhere =
          add_found again (glob (path ++ slash ∷ 42 ∷ [])) (block_bytes blocks)
          >>=? add_found again (glob (path ++ slash ∷ dot ∷ 42 ∷ [])) in
        if is_plain path then (if opens then all else some (block_bytes blocks)) else elsewhere

    -- The loop over the paths of one pattern, behind a plain path.
    pub glob_entries : List ℕ → Bool → Entries → ℕ → Option ℕ
    glob_entries path hidden no_more r = some r
    glob_entries path hidden (entry name n es) r =
        let sub = du_by_glob (join path name) n in
        let skipped = glob_entries path hidden es r in
        let added = sub >>=? (λ x. glob_entries path hidden es (add_u64 r x)) in
        if is_hidden name && hidden || not (is_hidden name) && not hidden
        then (if ends_special (join path name) then skipped else added)
        else skipped

-- `du_by_glob`, where it leaves the directories that it was called on `k` times at most; each time the paths get
-- longer. `none` stands for more as well.
unfoldable pub du_by_glob_within : ℕ → Glob → List ℕ → Node → Option ℕ
unfolding du_by_glob
du_by_glob_within zero glob path n = du_by_glob glob (λ p m. none) path n
du_by_glob_within (suc k) glob path n = du_by_glob glob (du_by_glob_within k glob) path n

-- The loop over the units: `d` is `bytes` divided by `scale`, without rounding.
unfoldable pub unit_of : ℕ → ℕ → ℕ → ℕ → Option ℕ
unit_of zero bytes scale unit = none
unit_of (suc fuel) bytes scale unit =
    let rest = unit_of fuel bytes (scale * 1024) (unit + 1) in
    if ltb (1000 * scale) bytes then rest else some unit

-- `getenv("DU_BY_GLOB") != NULL && strcmp(getenv("DU_BY_GLOB"), "1")`
abbrev pub by_glob : Option (List ℕ) → Bool
by_glob none = false
by_glob (some v) = not (same_name v (49 ∷ []))

-- `main`: what it prints, the bytes and the index of the unit; `none` is `exit(1)`.
unfoldable pub du_main : ℕ → Glob → ℕ → Option (List ℕ) → List ℕ → Node → Option (ℕ × ℕ)
du_main k glob argc setting path n =
    if ltb argc 2
    then none
    else (if by_glob setting then du_by_glob_within k glob path n else du path n)
      >>=? (λ bytes. unit_of 8 bytes 1 0 >>=? (λ unit. some (bytes, unit)))
