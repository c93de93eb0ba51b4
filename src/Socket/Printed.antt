-- ===== src/Socket/Printed.antt =====
-- When the `printf` of a server stays within the struct of socket/socket_tcp.c.
use apue_pratice.Prelude.{
  ℕ, ◌≡◌, refl, ap, inl, inr, Bool-cases, ◌||◌, ◌==◌, Bool, true, false, List, [], ◌∷◌, arith,
}
use apue_pratice.Prelude.Outcome.{done, fault, ◌>>=◌}
use apue_pratice.Socket.Message.{c_string, as_int, htonl, word_at, Line, print_msg, print_msg}

-- Whether there is a NUL among some bytes.
abbrev pub has_nul : List ℕ → Bool
has_nul [] = false
has_nul (b ∷ bytes) = b == 0 || has_nul bytes

c_string-by_nul :
    (bytes : List ℕ)
    → (has_nul bytes ≡ true → (t : List ℕ) × (c_string bytes ≡ done t))
      × (has_nul bytes ≡ false → c_string bytes ≡ fault)
unfolding c_string
c_string-by_nul [] = (λ h. cc, λ h. refl)
c_string-by_nul (b ∷ bytes) = elim (Bool-cases (b == 0)) [
  | inl e ↦ (λ h. ([], rw e refl), λ h. ground (arith, h, e))
  | inr e ↦ (
    λ h. let (t, q) = (c_string-by_nul bytes).0 (ground (arith, h, e)) in (b ∷ t, rw (e, q) refl),
    λ h. rw (e, (c_string-by_nul bytes).1 (ground (arith, h, e))) refl,
  )
]

-- The line of a text and the two numbers behind it.
abbrev line_of : List ℕ → List ℕ → Line
line_of msg text = record {
  shown = text;
  math_shown = as_int (htonl (word_at 16 msg));
  chinese_shown = as_int (htonl (word_at 20 msg));
}

pub print_msg-by_nul :
    (msg : List ℕ)
    → (has_nul msg ≡ true → (l : Line) × (print_msg msg ≡ done l))
      × (has_nul msg ≡ false → print_msg msg ≡ fault)
unfolding print_msg
print_msg-by_nul msg = (
  λ h.
      let (t, q) = (c_string-by_nul msg).0 h in
      (line_of msg t, ap (λ o. o >>= λ text. done (line_of msg text)) q),
  λ h. rw ((c_string-by_nul msg).1 h) refl,
)
