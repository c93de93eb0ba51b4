-- ===== src/Socket/Echo.antt =====
-- socket/udp_echo.c: one thread sends MESSAGE to the port that the other has bound, and that one prints
-- what it receives in a buffer from `malloc`.
use apue_pratice.Prelude.{
  drop-append, ℕ, zero, suc, ◌≡◌, refl, ap, ◌∙◌, ◌≢◌, Option, List, [], ◌∷◌, ◌++◌, arith, length,
  take, drop, replicate,
}
use apue_pratice.Prelude.Int.{ℤ}
use apue_pratice.Prelude.Outcome.{Outcome, done, fault, ◌>>=◌}
use apue_pratice.Socket.Message.{c_string}
use apue_pratice.Socket.Udp.{Sender, Received, datagram, failed, ntohs, dotted}
use apue_pratice.Socket.Reports.{
  Report, report_if, ◌or_else◌, negative, not_one, any_host, socket_failed, pton_failed,
  bind_failed,
}

-- "hello socket\n"
abbrev pub message_text : List ℕ
message_text = 104 ∷ 101 ∷ 108 ∷ 108 ∷ 111 ∷ 32 ∷ 115 ∷ 111 ∷ 99 ∷ 107 ∷ 101 ∷ 116 ∷ 10 ∷ []

-- What the calls of `main` return.
pub record EchoCalls : Type 0 where
  pub socket : ℤ
  pub pton : List ℕ → ℤ
  pub bind : ℤ → ℤ

abbrev pub echo_open : EchoCalls → Option Report
echo_open calls =
    report_if (negative calls.socket) socket_failed
    or_else report_if (not_one (calls.pton any_host)) pton_failed
    or_else report_if (negative (calls.bind calls.socket)) bind_failed

-- BIND_PORT in the order of the net, and the address to which `try_echo` sends: 127.0.0.1 at that port.
abbrev pub echo_address : Sender
echo_address = record { ip = 127 ∷ 0 ∷ 0 ∷ 1 ∷ []; port = ntohs 7077 }

-- The datagrams of `n` rounds of `try_echo`, which come from the socket itself.
abbrev pub try_echo : ℕ → List Received
try_echo n = replicate n (datagram message_text echo_address)

-- The locals of the loop of `main`.
pub record EchoState : Type 0 where
  pub buf : List ℕ
  pub r_addr : Sender

pub record EchoLine : Type 0 where
  pub text : List ℕ
  pub from_ip : List ℕ
  pub from_port : ℕ

-- `recvfrom` with room for strlen(MESSAGE) bytes.
abbrev pub echo_recv : Received → EchoState → EchoState
echo_recv (datagram bytes from) s =
    let got = take (length message_text) bytes in
    record { buf = got ++ drop (length got) s.buf; r_addr = from }
echo_recv failed s = s

abbrev pub echo_print : EchoState → Outcome EchoLine
echo_print s = c_string s.buf >>= λ t.
    done (record { text = t; from_ip = dotted s.r_addr.ip; from_port = ntohs s.r_addr.port })

-- The loop of `main`.
unfoldable pub echo_main : EchoState → List Received → Outcome (List EchoLine)
echo_main s [] = done []
echo_main s (r ∷ rs) =
    let rest = echo_main (echo_recv r s) rs in
    echo_print (echo_recv r s) >>= λ l. rest >>= λ ls. done (l ∷ ls)

abbrev pub own_line : EchoLine
own_line = record { text = message_text; from_ip = dotted echo_address.ip; from_port = 7077 }

-- The state after a datagram of `try_echo`, by what stands behind its 13 bytes.
abbrev own_state : List ℕ → EchoState
own_state r = record { buf = message_text ++ r; r_addr = echo_address }

echo_main-own :
    (n : ℕ) (junk r : List ℕ) (from : Sender)
    → length junk ≡ length message_text
    → echo_main (record { buf = junk ++ r; r_addr = from }) (try_echo (suc n)) ≡ (
        echo_print (own_state r) >>= λ l.
        echo_main (own_state r) (try_echo n) >>= λ ls. done (l ∷ ls))
unfolding echo_main
echo_main-own n junk r from h =
    ap
      (λ t. echo_print (own_state t) >>= λ l.
        echo_main (own_state t) (try_echo n) >>= λ ls. done (l ∷ ls))
      (drop-append (length message_text) junk r h)

echo_ended :
    (n : ℕ) (junk : List ℕ) (from : Sender)
    → length junk ≡ length message_text
    → echo_main (record { buf = junk ++ 0 ∷ []; r_addr = from }) (try_echo n)
      ≡ done (replicate n own_line)
unfolding echo_main c_string
echo_ended zero junk from h = refl
echo_ended (suc n) junk from h =
    echo_main-own n junk (0 ∷ []) from h
    ∙ ap (λ o. o >>= λ ls. done (own_line ∷ ls)) (echo_ended n message_text echo_address refl)

c_string-unended : (b : ℕ) → b ≢ 0 → c_string (message_text ++ b ∷ []) ≡ fault
unfolding c_string
c_string-unended b z = ground (arith, z)

echo_unended :
    (n b : ℕ) (junk : List ℕ) (from : Sender)
    → length junk ≡ length message_text
    → b ≢ 0
    → echo_main (record { buf = junk ++ b ∷ []; r_addr = from }) (try_echo (suc n)) ≡ fault
echo_unended n b junk from h z =
    echo_main-own n junk (b ∷ []) from h
    ∙ ap
        (λ o.
          (o >>= λ t. done (
            let l : EchoLine = record {
              text = t;
              from_ip = dotted echo_address.ip;
              from_port = ntohs echo_address.port;
            } in
            l))
          >>= λ l. echo_main (own_state (b ∷ [])) (try_echo n) >>= λ ls. done (l ∷ ls))
        (c_string-unended b z)

-- udp_echo.c prints each message that its own thread has sent, with the address 127.0.0.1:7077, when the
-- byte that `malloc` put behind the 13 bytes of the message is NUL; when it is not, the first message
-- that is printed is read past the end of the buffer.
pub echo_own_messages :
    (n b : ℕ) (junk : List ℕ) (from : Sender)
    → length junk ≡ length message_text
    → (b ≡ 0
        → echo_main (record { buf = junk ++ b ∷ []; r_addr = from }) (try_echo n)
          ≡ done (replicate n own_line))
      × (b ≢ 0
          → echo_main (record { buf = junk ++ b ∷ []; r_addr = from }) (try_echo (suc n)) ≡ fault)
echo_own_messages n b junk from h = (
  λ z.
      ap
        (λ c.
          echo_main (let s : EchoState = record { buf = junk ++ c ∷ []; r_addr = from } in s)
            (try_echo n))
        z
      ∙ echo_ended n junk from h,
  echo_unended n b junk from h,
)
