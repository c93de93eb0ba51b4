-- ===== src/Ipc/Tests.antt =====
-- The talking processes at short runs.
use apue_pratice.Prelude.{ℕ, if◌then◌else◌, ltb, ◌+◌, ◌*◌, ◌≡◌, refl, false, [], ◌∷◌, ◌++◌, arith}
use native.Mathlib.Decide.{ℕ_discrete}
use apue_pratice.Prelude.Outcome.{done}
use apue_pratice.Prelude.Decimal.{digits}
use apue_pratice.Ipc.Shared.{
  shm_template, shm_first, shm_size, read_text, text_of, Sharing, begin_text, store_byte, Reach,
  start, next,
}
use apue_pratice.Ipc.Stream as Stream
use apue_pratice.Ipc.Stream.{
  Talk, reading, holding, pipe_message, lost, messages, held, pipe_delivers, child_spins,
}

-- Memory in which an earlier run has left "xxxx".
abbrev left_over : ℕ → ℕ
left_over i = if ltb i 4 then 120 else 0

-- The first text of ipc/shm.c, "hello mq 1", of which one byte has been stored.
abbrev first_byte :
    (s : Sharing shm_template shm_first left_over) × Reach shm_template shm_first left_over s
first_byte = (_, next (next start (begin_text refl)) (store_byte 0 refl (omega arith)))

first_byte_read : read_text shm_size 0 first_byte.0.mem ≡ done (104 ∷ 120 ∷ 120 ∷ 120 ∷ [])
unfolding read_text text_of digits ℕ_discrete
first_byte_read = refl

first_text :
    text_of shm_template shm_first 1 ≡ 104 ∷ 101 ∷ 108 ∷ 108 ∷ 111 ∷ 32 ∷ 109 ∷ 113 ∷ 32 ∷ 49 ∷ []
unfolding text_of digits
first_text = refl

-- A message is sent, five bytes of it are read and copied.
abbrev five_copied : (s : Talk) × Stream.Reach s
five_copied = (
  _,
  Stream.next
      (Stream.next (Stream.next Stream.start (Stream.send refl))
        (Stream.receive 5 refl (omega arith) (omega arith) (λ z. absurd (omega (arith, z)))))
      (Stream.copy 5 refl (omega arith)),
)

five_lost : lost five_copied.1 ≡ 0
unfolding lost
five_lost = refl

pipe_delivers_example :
    (lost five_copied.1 ≡ 0
      → (104 ∷ 101 ∷ 108 ∷ 108 ∷ 111 ∷ []) ++ ([] ++ (32 ∷ 112 ∷ 105 ∷ 112 ∷ 101 ∷ 10 ∷ []))
        ≡ messages 1)
    × (11 + lost five_copied.1 ≡ 11 * 1)
pipe_delivers_example = pipe_delivers five_copied.1

abbrev alone : Talk
alone = record { pipe = []; writing = false; child = reading; output = pipe_message; sent = 1 }

child_spins_test : (t : Talk) × Stream.Step alone t × Stream.Step t alone
child_spins_test = child_spins alone refl refl refl
