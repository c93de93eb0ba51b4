-- ===== src/Ipc/Shared.antt =====
-- ipc/shm.c and adio/mmap_share.c: one process writes a text with a growing number into shared memory, the
-- other prints what it finds there. The bytes of a text are stored one by one, in any order. The memory of
-- adio/mmap_share.c is new and therefore zero; that of ipc/shm.c may be left from an earlier run, as no run removes
-- it. The calls before the loops succeed.
use apue_pratice.Prelude.{
  ℕ, zero, suc, ◌+◌, ◌≤◌, ◌≡◌, Bool, true, false, Option, none, some, List, [], ◌∷◌, ◌++◌, ◌==◌,
  leb, if◌then◌else◌, length, get_or,
}
use apue_pratice.Prelude.Int.{pos}
use apue_pratice.Prelude.Outcome.{Outcome, done, fault, ◌>>=◌}
use apue_pratice.Prelude.Decimal.{print_int}
use apue_pratice.Thread.Family.{change}

-- "hello mq " and the number of the first text of ipc/shm.c
abbrev pub shm_template : List ℕ
shm_template = 104 ∷ 101 ∷ 108 ∷ 108 ∷ 111 ∷ 32 ∷ 109 ∷ 113 ∷ 32 ∷ []

abbrev pub shm_first : ℕ
shm_first = 1

abbrev pub shm_size : ℕ
shm_size = 1024

-- "hello world, count = " and the number of the first text of adio/mmap_share.c
abbrev pub map_template : List ℕ
map_template =
    104 ∷ 101 ∷ 108 ∷ 108 ∷ 111 ∷ 32 ∷ 119 ∷ 111 ∷ 114 ∷ 108 ∷ 100 ∷ 44 ∷ 32 ∷ 99 ∷ 111 ∷ 117 ∷ 110
    ∷ 116 ∷ 32 ∷ 61 ∷ 32 ∷ []

abbrev pub map_first : ℕ
map_first = 0

abbrev pub map_size : ℕ
map_size = 4096

-- `printf("%s")` from a place on in memory of which `n` bytes are left: past them it is undefined.
unfoldable pub read_text : ℕ → ℕ → (ℕ → ℕ) → Outcome (List ℕ)
read_text zero i mem = fault
read_text (suc n) i mem =
    let rest = read_text n (i + 1) mem in
    if mem i == 0 then done [] else (rest >>= λ t. done (mem i ∷ t))

-- The text after `v` calls of `snprintf`: none at first.
unfoldable pub text_of : List ℕ → ℕ → ℕ → List ℕ
text_of template first zero = []
text_of template first (suc v) = template ++ print_int (pos (first + v))

module _ (template : List ℕ) (first : ℕ) (old : ℕ → ℕ) where
  -- The byte of the memory after `v` whole calls of `snprintf`: it stores a text and a NUL, and leaves what is
  -- behind them.
  abbrev pub byte_of : ℕ → ℕ → ℕ
  byte_of zero i = old i
  byte_of (suc v) i =
      let text = text_of template first (suc v) in
      if leb i (length text) then get_or text i 0 else old i

  -- The memory, how many texts are complete, and, in a call of `snprintf`, which bytes it has stored.
  pub record Sharing : Type 0 where
    pub mem : ℕ → ℕ
    pub version : ℕ
    pub storing : Option (ℕ → Bool)

  pub data Step (s : Sharing) : Sharing → Type 0 where
    begin_text : s.storing ≡ none → Step s (record s { storing = some (λ _. false) })
    store_byte :
        {stored : ℕ → Bool} (i : ℕ)
        → s.storing ≡ some stored
        → i ≤ length (text_of template first (suc s.version))
        → Step s (record {
          mem = change i (get_or (text_of template first (suc s.version)) i 0) s.mem;
          version = s.version;
          storing = some (change i true stored);
        })
    end_text :
        {stored : ℕ → Bool}
        → s.storing ≡ some stored
        → ((i : ℕ) → i ≤ length (text_of template first (suc s.version)) → stored i ≡ true)
        → Step s (record { mem = s.mem; version = suc s.version; storing = none })

  -- The memory as it is attached.
  abbrev pub attached : Sharing
  attached = record { mem = old; version = 0; storing = none }

  pub data Reach : Sharing → Type 0 where
    start : Reach attached
    next : {s t : Sharing} → Reach s → Step s t → Reach t

-- The writer of each program: the memory of ipc/shm.c may hold anything, that of adio/mmap_share.c is zero.
abbrev pub ShmStep :
    (old : ℕ → ℕ) → Sharing shm_template shm_first old → Sharing shm_template shm_first old → Type 0
ShmStep = Step shm_template shm_first

abbrev pub MapStep :
    Sharing map_template map_first (λ _. 0) → Sharing map_template map_first (λ _. 0) → Type 0
MapStep = Step map_template map_first (λ _. 0)
