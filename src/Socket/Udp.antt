-- ===== src/Socket/Udp.antt =====
-- The loops of `server` and `client` of socket/socket_udp.c, and the two together.
use apue_pratice.Prelude.{
  ℕ, ◌+◌, ◌*◌, ◌/◌, ◌%◌, ◌<◌, ◌≡◌, Bool, true, false, Option, none, some, List, [], ◌∷◌, ◌++◌,
  length,
}
use apue_pratice.Prelude.Int.{ℤ, pos, negsuc}
use apue_pratice.Prelude.Outcome.{Outcome, done, ◌>>=◌}
use apue_pratice.Socket.Message.{
  name_size, MsgSt, msg_bytes, filled, as_int, Line, print_msg, received, no_nul, print_msg,
}
use apue_pratice.Prelude.Decimal.{print_int}

-- `struct sockaddr_in`: the bytes of the address, and the port in the order of the net.
pub record Sender : Type 0 where
  pub ip : List ℕ
  pub port : ℕ

-- `ntohs`, which is `htons`.
abbrev pub ntohs : ℕ → ℕ
ntohs v = v % 256 * 256 + v / 256 % 256

-- `inet_ntop`
unfoldable pub dotted : List ℕ → List ℕ
dotted [] = []
dotted (b ∷ []) = print_int (pos b)
dotted (b ∷ c ∷ rest) = let tail = dotted (c ∷ rest) in print_int (pos b) ++ 46 ∷ tail

-- What a call of `recvfrom` brings: a datagram, or nothing, where it fails.
pub data Received : Type 0 where
  datagram : List ℕ → Sender → Received
  failed : Received

-- The locals `msg` and `r_addr` of `server`.
pub record Server : Type 0 where
  pub msg : List ℕ
  pub r_addr : Sender

-- The two lines that `server` prints.
pub record Printed : Type 0 where
  pub from_ip : List ℕ
  pub from_port : ℕ
  pub line : Line

abbrev pub after_recv : Received → Server → Server
after_recv (datagram bytes from) s = record { msg = received bytes s.msg; r_addr = from }
after_recv failed s = s

abbrev pub show_packet : Server → Outcome Printed
show_packet s = print_msg s.msg >>= λ l.
    done (record { from_ip = dotted s.r_addr.ip; from_port = ntohs s.r_addr.port; line = l })

-- The loop of `server`, which does not look at what `recvfrom` returned.
unfoldable pub udp_server : Server → List Received → Outcome (List Printed)
udp_server s [] = done []
udp_server s (r ∷ rs) =
    let rest = udp_server (after_recv r s) rs in
    show_packet (after_recv r s) >>= λ p. rest >>= λ ps. done (p ∷ ps)

-- The message of `client`: "sal", 100, 100.
abbrev pub sal_msg : List ℕ → MsgSt
sal_msg junk = filled (115 ∷ 97 ∷ 108 ∷ []) 100 100 junk

-- The loop of `client`: what is sent, and whether `sendto` failed, which ends the program.
unfoldable pub udp_client : List ℕ → List ℤ → List (List ℕ) × Bool
udp_client bytes [] = ([], false)
udp_client bytes (pos n ∷ rs) = let rest = udp_client bytes rs in (bytes ∷ rest.0, rest.1)
udp_client bytes (negsuc n ∷ rs) = ([], true)

-- A message as its sender means it.
pub record Sent : Type 0 where
  pub text : List ℕ
  pub math_sent : ℕ
  pub chinese_sent : ℕ
  pub rubbish : List ℕ
  pub sender : Sender

pub record IsSendable (m : Sent) : Type 0 where
  pub without_nul : no_nul m.text ≡ true
  pub fits_name : length m.text < name_size
  pub array : length m.rubbish ≡ name_size
  pub math_word : m.math_sent < 4294967296
  pub chinese_word : m.chinese_sent < 4294967296

abbrev pub AllSendable : List (Option Sent) → Type 0
AllSendable [] = Unit
AllSendable (none ∷ ms) = AllSendable ms
AllSendable (some m ∷ ms) = IsSendable m × AllSendable ms

-- What is to be printed of it.
abbrev pub meant : Sent → Printed
meant m = record {
  from_ip = dotted m.sender.ip;
  from_port = ntohs m.sender.port;
  line = record {
    shown = m.text;
    math_shown = as_int m.math_sent;
    chinese_shown = as_int m.chinese_sent;
  };
}

-- How a message comes in; a `none` is a call that failed.
abbrev pub arrival : Option Sent → Received
arrival none = failed
arrival (some m) =
    datagram (msg_bytes (filled m.text m.math_sent m.chinese_sent m.rubbish)) m.sender

-- What a server promises: for each call of `recvfrom`, the last message that came in.
unfoldable pub last_messages : Printed → List (Option Sent) → List Printed
last_messages last [] = []
last_messages last (none ∷ ms) = last ∷ last_messages last ms
last_messages last (some m ∷ ms) = meant m ∷ last_messages (meant m) ms
