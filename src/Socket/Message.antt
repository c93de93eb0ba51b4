-- ===== src/Socket/Message.antt =====
-- `struct msg_st` of socket/socket_udp.c and socket/socket_tcp.c: how it is filled and sent, and what is
-- printed of the bytes that are received.
pub use apue_pratice.Prelude.Decimal.{no_nul}
use apue_pratice.Prelude.{
  ℕ, suc, ◌+◌, ◌-◌, ◌*◌, ◌/◌, ◌%◌, List, [], ◌∷◌, ◌++◌, ltb, ◌==◌, if◌then◌else◌, length, get_or,
  take, drop,
}
use apue_pratice.Prelude.Int.{ℤ, pos, negsuc}
use apue_pratice.Prelude.Outcome.{Outcome, done, fault, ◌>>=◌}

-- A 32-bit number in memory, and back.
abbrev pub le_bytes : ℕ → List ℕ
le_bytes v = (v % 256) ∷ (v / 256 % 256) ∷ (v / 65536 % 256) ∷ (v / 16777216 % 256) ∷ []

abbrev pub of_le : ℕ → ℕ → ℕ → ℕ → ℕ
of_le a b c d = a + 256 * b + 65536 * c + 16777216 * d

-- `htonl`, which is `ntohl`: the bytes in the other order.
unfoldable pub htonl : ℕ → ℕ
htonl v = of_le (v / 16777216 % 256) (v / 65536 % 256) (v / 256 % 256) (v % 256)

-- A number with the high byte first, as it is on the net.
abbrev pub be_bytes : ℕ → List ℕ
be_bytes v = (v / 16777216 % 256) ∷ (v / 65536 % 256) ∷ (v / 256 % 256) ∷ (v % 256) ∷ []

abbrev pub name_size : ℕ
name_size = 16

-- sizeof(struct msg_st)
abbrev pub msg_size : ℕ
msg_size = 24

-- The fields, as they are in memory.
pub record MsgSt : Type 0 where
  pub name : List ℕ
  pub math : ℕ
  pub chinese : ℕ

-- `strcpy` into an array: the text, its NUL, and what stood behind.
abbrev pub strcpy : List ℕ → List ℕ → List ℕ
strcpy text old = text ++ 0 ∷ drop (suc (length text)) old

-- The bytes of the packed struct.
abbrev pub msg_bytes : MsgSt → List ℕ
msg_bytes msg = msg.name ++ (le_bytes msg.math ++ le_bytes msg.chinese)

-- The message that `client` fills: `junk` is what stood in the name.
abbrev pub filled : List ℕ → ℕ → ℕ → List ℕ → MsgSt
filled text math chinese junk = record {
  name = strcpy text junk;
  math = htonl math;
  chinese = htonl chinese;
}

-- The four bytes at an offset.
abbrev pub word_at : ℕ → List ℕ → ℕ
word_at i bytes =
    of_le (get_or bytes i 0) (get_or bytes (i + 1) 0) (get_or bytes (i + 2) 0)
      (get_or bytes (i + 3) 0)

-- `%s`: the bytes up to the first NUL; where there is none, memory past the struct is read.
unfoldable pub c_string : List ℕ → Outcome (List ℕ)
c_string [] = fault
c_string (b ∷ bytes) =
    let rest = c_string bytes in if b == 0 then done [] else (rest >>= λ text. done (b ∷ text))

-- `%d` of an unsigned number.
abbrev pub as_int : ℕ → ℤ
as_int v = if ltb v 2147483648 then pos v else negsuc (4294967295 - v)

pub record Line : Type 0 where
  pub shown : List ℕ
  pub math_shown : ℤ
  pub chinese_shown : ℤ

-- The `printf` of a server with the struct's 24 bytes.
unfoldable pub print_msg : List ℕ → Outcome Line
print_msg bytes = c_string bytes >>= λ text. done (record {
  shown = text;
  math_shown = as_int (htonl (word_at 16 bytes));
  chinese_shown = as_int (htonl (word_at 20 bytes));
})

-- The struct after bytes were received into its front.
abbrev pub received : List ℕ → List ℕ → List ℕ
received bytes old = let got = take msg_size bytes in got ++ drop (length got) old
