-- ===== src/Socket/Tests.antt =====
-- The programs of socket/ at concrete inputs.
use apue_pratice.Prelude.{
  ℕ, ◌≡◌, refl, ◌≢◌, ◌↔◌, true, false, none, some, List, [], ◌∷◌, ◌++◌, map, arith, length, take,
  drop, replicate,
}
use apue_pratice.Prelude.Int.{ℤ, pos, negsuc}
use apue_pratice.Prelude.Outcome.{done, fault}
use apue_pratice.Socket.Message.{
  htonl, msg_bytes, filled, c_string, print_msg, received, htonl, print_msg,
}
use apue_pratice.Socket.Layout.{print_msg-filled}
use apue_pratice.Socket.Reports.{
  UdpCalls, multicast, udp_server_open, udp_main, TcpCalls, tcp_main, server_opt, client_opt,
  broadcast_failed, socket_failed, usage, reported, serving,
}
use apue_pratice.Socket.Starts.{
  has_server, has_host, udp_main-fault, udp_server_open-none, udp_hides_socket, tcp_main_starts,
}
use apue_pratice.Socket.Udp.{
  Sender, datagram, Server, udp_server, sal_msg, udp_client, Sent, IsSendable, arrival, meant,
  last_messages,
}
use apue_pratice.Socket.UdpRuns.{udp_server_prints, sal_sent, udp_end_to_end}
use apue_pratice.Socket.Tcp.{
  ReadResult, chunk, closed, broken, Session, tcp_server, tcp_client, meant_line, bytes_of,
}
use apue_pratice.Socket.TcpRuns.{tcp_sal, all_end, tcp_server-reads, cut_whole, tcp_end_to_end}
use apue_pratice.Socket.Echo.{try_echo, echo_main, own_line, echo_own_messages}

abbrev two : ℕ
two = 2

abbrev nul : ℕ
nul = 0

abbrev home : Sender
home = record { ip = 127 ∷ 0 ∷ 0 ∷ 1 ∷ []; port = 42267 }

-- A server whose struct is full of rubbish.
abbrev fresh_server : Server
fresh_server = record { msg = replicate 24 255; r_addr = record { ip = []; port = 0 } }

abbrev sixteen : List ℕ
sixteen = replicate 16 1

-- "ann" with 90 and 4294967295.
abbrev ann : Sent
ann = record {
  text = 97 ∷ 110 ∷ 110 ∷ [];
  math_sent = 90;
  chinese_sent = 4294967295;
  rubbish = sixteen;
  sender = home;
}

ann-IsSendable : IsSendable ann
ann-IsSendable = record {
  without_nul = refl;
  fits_name = omega arith;
  array = refl;
  math_word = omega arith;
  chinese_word = omega arith;
}

print_msg-filled_test :
    print_msg
      (received (msg_bytes (filled (97 ∷ 110 ∷ 110 ∷ []) 90 4294967295 sixteen)) (replicate 24 255))
    ≡ done (record { shown = 97 ∷ 110 ∷ 110 ∷ []; math_shown = pos 90; chinese_shown = negsuc 0 })
print_msg-filled_test =
    print_msg-filled (97 ∷ 110 ∷ 110 ∷ []) sixteen (replicate 24 255) 90 4294967295 refl
      (omega arith) refl refl (omega arith) (omega arith)

-- The message, and then a call that fails.
udp_server_prints_example :
    udp_server fresh_server (map arrival (some ann ∷ none ∷ [])) ≡ done (meant ann ∷ meant ann ∷ [])
unfolding last_messages
udp_server_prints_example = udp_server_prints fresh_server ann (none ∷ []) refl ann-IsSendable tt

udp_end_to_end_test :
    udp_server fresh_server (
      map
        (λ bytes. datagram bytes home)
        (udp_client (msg_bytes (sal_msg sixteen)) (pos 24 ∷ pos 24 ∷ negsuc 0 ∷ [])).0)
    ≡ done (meant (sal_sent sixteen home) ∷ meant (sal_sent sixteen home) ∷ [])
udp_end_to_end_test =
    udp_end_to_end fresh_server sixteen home (pos 24 ∷ pos 24 ∷ negsuc 0 ∷ []) refl refl

-- Calls that succeed where there is a descriptor.
abbrev good_calls : ℤ → UdpCalls
good_calls sd = record {
  socket = sd;
  broadcast = λ d. d;
  join_group = λ d. d;
  pton = λ h. pos 1;
  bind = λ d. d;
}

udp_main-fault_test : (udp_main 2 (client_opt ∷ []) (good_calls (pos 3)) ≡ fault) ↔ (
    (two ≢ 1)
    × (has_server (client_opt ∷ []) ≡ false)
    × (has_host (client_opt ∷ []) ≡ false)
    × (false ≡ false))
udp_main-fault_test = udp_main-fault 2 (client_opt ∷ []) (good_calls (pos 3))

udp_server_open-none_test :
    (udp_server_open (some (50 ∷ 50 ∷ 52 ∷ [])) none (good_calls (pos 3)) ≡ none) ↔ (
      (false ≡ false)
      × ((h : List ℕ)
          → some (50 ∷ 50 ∷ 52 ∷ []) ≡ some h
          → multicast h ≡ true
          → (false ≡ true) × (false ≡ false))
      × (false ≡ false)
      × (false ≡ false)
      × (false ≡ false))
udp_server_open-none_test =
    udp_server_open-none (some (50 ∷ 50 ∷ 52 ∷ [])) none (good_calls (pos 3))

udp_hides_socket_test :
    (udp_main 2 (server_opt ∷ []) (good_calls (negsuc 0)) ≢ done (reported socket_failed))
    × (true ≡ true
        → two ≢ 1
        → udp_main 2 (server_opt ∷ []) (good_calls (negsuc 0)) ≡ done (reported broadcast_failed))
udp_hides_socket_test = udp_hides_socket 2 (server_opt ∷ []) (good_calls (negsuc 0)) (λ d h. h)

abbrev good_tcp_calls : TcpCalls
good_tcp_calls = record {
  socket = pos 3;
  pton = λ h. pos 1;
  bind = λ d. pos 0;
  listen = λ d. pos 0;
  accept = λ d. pos 4;
  connect = λ d. pos 0;
}

tcp_main_starts_example :
    (two ≡ 1 → tcp_main 2 (server_opt ∷ []) good_tcp_calls ≡ done usage)
    × ((tcp_main 2 (server_opt ∷ []) good_tcp_calls ≡ done serving) ↔ (
        (two ≢ 1)
        × (true ≡ true)
        × (false ≡ false)
        × (false ≡ false)
        × (false ≡ false)
        × (false ≡ false)
        × (false ≡ false)))
    × ((tcp_main 2 (server_opt ∷ []) good_tcp_calls ≡ fault)
        ↔ ((two ≢ 1) × (true ≡ false) × (has_host (server_opt ∷ []) ≡ false) × (false ≡ false)))
tcp_main_starts_example = tcp_main_starts 2 (server_opt ∷ []) good_tcp_calls

tcp_end_to_end_example :
    tcp_server (replicate 24 255) (
      cut_whole 2 (tcp_client (bytes_of (tcp_sal sixteen)) (pos 24 ∷ pos 24 ∷ [])).0 ++ closed ∷ [])
    ≡ done (record {
      lines =
          meant_line (tcp_sal sixteen)
          ∷ meant_line (tcp_sal sixteen)
          ∷ meant_line (tcp_sal sixteen)
          ∷ [];
      over = true;
    })
tcp_end_to_end_example = tcp_end_to_end 1 (replicate 24 255) sixteen refl refl

-- Reads that cut a message in two print a line for each part, neither as it was meant, and an error
-- prints the second line again.
abbrev cut_reads : List ReadResult
cut_reads =
    chunk (take 10 (bytes_of (tcp_sal sixteen)))
    ∷ chunk (drop 10 (bytes_of (tcp_sal sixteen)))
    ∷ broken
    ∷ []

abbrev cut_session : Session
cut_session = record {
  lines =
      record { shown = 115 ∷ 97 ∷ 108 ∷ []; math_shown = pos 0; chinese_shown = pos 0 }
      ∷ record { shown = 1 ∷ 1 ∷ 1 ∷ 1 ∷ 1 ∷ 1 ∷ []; math_shown = pos 0; chinese_shown = pos 0 }
      ∷ record { shown = 1 ∷ 1 ∷ 1 ∷ 1 ∷ 1 ∷ 1 ∷ []; math_shown = pos 0; chinese_shown = pos 0 }
      ∷ [];
  over = false;
}

cut_run : tcp_server (replicate 24 0) cut_reads ≡ done cut_session
unfolding tcp_server print_msg c_string htonl
cut_run = refl

cut_reads_end : all_end (replicate 24 0) cut_reads ≡ true
unfolding htonl
cut_reads_end = refl

tcp_server-reads_example :
    (all_end (replicate 24 0) cut_reads ≡ true
      → (s : Session) × (tcp_server (replicate 24 0) cut_reads ≡ done s)
        × (length s.lines ≡ 3)
        × (s.over ≡ false))
    × (all_end (replicate 24 0) cut_reads ≡ false → tcp_server (replicate 24 0) cut_reads ≡ fault)
tcp_server-reads_example = tcp_server-reads (replicate 24 0) cut_reads

-- A `read` of no bytes ends the loop after one more line.
empty_read_ends :
    tcp_server (replicate 24 0) (chunk [] ∷ chunk (1 ∷ []) ∷ [])
    ≡ done (record {
      lines = record { shown = []; math_shown = pos 0; chinese_shown = pos 0 } ∷ [];
      over = true;
    })
unfolding tcp_server print_msg c_string htonl
empty_read_ends = refl

-- A struct without NUL is undefined to print.
no_nul_read : tcp_server (replicate 24 1) (chunk (replicate 24 1) ∷ []) ≡ fault
unfolding tcp_server print_msg c_string htonl
no_nul_read = refl

echo_own_messages_example :
    (nul ≡ 0
      → echo_main (record { buf = replicate 13 7 ++ 0 ∷ []; r_addr = home }) (try_echo 2)
        ≡ done (own_line ∷ own_line ∷ []))
    × (nul ≢ 0
        → echo_main (record { buf = replicate 13 7 ++ 0 ∷ []; r_addr = home }) (try_echo 3) ≡ fault)
echo_own_messages_example = echo_own_messages 2 0 (replicate 13 7) home refl
