-- ===== src/Socket/Tcp.antt =====
-- The loops of `server` and `client` of socket/socket_tcp.c. A stream has no messages: each `read` brings
-- some of the bytes that have come.
use apue_pratice.Prelude.{
  ℕ, ◌<◌, ◌≡◌, Bool, true, false, List, [], ◌∷◌, ◌++◌, length, take, if◌then◌else◌,
}
use apue_pratice.Prelude.Int.{ℤ, pos, negsuc}
use apue_pratice.Prelude.Outcome.{Outcome, done, ◌>>=◌}
use apue_pratice.Socket.Message.{
  name_size, msg_bytes, filled, as_int, Line, print_msg, received, no_nul, print_msg,
}

-- What a `read` brings: bytes, at most as many as the struct has; the end, where the client has closed and
-- there are no bytes left; or an error. No bytes are the end as well.
pub data ReadResult : Type 0 where
  chunk : List ℕ → ReadResult
  closed : ReadResult
  broken : ReadResult

-- What the server has printed, and whether it has left the loop.
pub record Session : Type 0 where
  pub lines : List Line
  pub over : Bool

-- `r == 0`
abbrev pub no_bytes : List ℕ → Bool
no_bytes [] = true
no_bytes (b ∷ bytes) = false

-- The loop of `server`: it prints before it looks whether the client has closed, and does not look
-- whether `read` failed.
unfoldable pub tcp_server : List ℕ → List ReadResult → Outcome Session
tcp_server msg [] = done (record { lines = []; over = false })
tcp_server msg (chunk bytes ∷ rs) =
    let rest = tcp_server (received bytes msg) rs in
    print_msg (received bytes msg) >>= λ l.
    if no_bytes bytes
    then done (record { lines = l ∷ []; over = true })
    else (rest >>= λ s. done (record { lines = l ∷ s.lines; over = s.over }))
tcp_server msg (closed ∷ rs) = print_msg msg >>= λ l. done (record { lines = l ∷ []; over = true })
tcp_server msg (broken ∷ rs) =
    let rest = tcp_server msg rs in
    print_msg msg >>= λ l. rest >>= λ s. done (record { lines = l ∷ s.lines; over = s.over })

-- The loop of `client`, by what each `write` returns: the bytes that it has put into the stream, and
-- whether a `write` failed, which ends the program. That a `write` may take only some bytes is not looked
-- at.
unfoldable pub tcp_client : List ℕ → List ℤ → List ℕ × Bool
tcp_client bytes [] = ([], false)
tcp_client bytes (pos r ∷ rs) = let rest = tcp_client bytes rs in (take r bytes ++ rest.0, rest.1)
tcp_client bytes (negsuc r ∷ rs) = ([], true)

-- A message, and the line that it is meant to be printed as.
pub record TcpSent : Type 0 where
  pub text : List ℕ
  pub math_sent : ℕ
  pub chinese_sent : ℕ
  pub rubbish : List ℕ

pub record IsTcpSendable (m : TcpSent) : Type 0 where
  pub without_nul : no_nul m.text ≡ true
  pub fits_name : length m.text < name_size
  pub array : length m.rubbish ≡ name_size
  pub math_word : m.math_sent < 4294967296
  pub chinese_word : m.chinese_sent < 4294967296

abbrev pub meant_line : TcpSent → Line
meant_line m = record {
  shown = m.text;
  math_shown = as_int m.math_sent;
  chinese_shown = as_int m.chinese_sent;
}

abbrev pub bytes_of : TcpSent → List ℕ
bytes_of m = msg_bytes (filled m.text m.math_sent m.chinese_sent m.rubbish)

abbrev pub AllTcpSendable : List TcpSent → Type 0
AllTcpSendable [] = Unit
AllTcpSendable (m ∷ ms) = IsTcpSendable m × AllTcpSendable ms
