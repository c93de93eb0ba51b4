-- ===== src/Ipc/SharedTexts.antt =====
-- What the reader of ipc/shm.c and of adio/mmap_share.c finds while the writer stores the bytes of its texts.
use apue_pratice.Prelude.{ℕ, suc, ◌≡◌, Bool, true, false, Option, none, some, List}
use apue_pratice.Ipc.Shared.{byte_of}

module _ (template : List ℕ) (first : ℕ) (old : ℕ → ℕ) where
  -- What the memory holds: what whole calls leave, where nothing is being stored, and else that or what the
  -- next one leaves, at each place.
  abbrev pub MemoryFits : Option (ℕ → Bool) → ℕ → (ℕ → ℕ) → Type 0
  MemoryFits none v mem = (i : ℕ) → mem i ≡ byte_of template first old v i
  MemoryFits (some stored) v mem =
      (i : ℕ)
      → (stored i ≡ true → mem i ≡ byte_of template first old (suc v) i)
        × (stored i ≡ false → mem i ≡ byte_of template first old v i)
