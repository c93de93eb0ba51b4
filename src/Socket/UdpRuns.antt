-- ===== src/Socket/UdpRuns.antt =====
-- What the `server` of socket/socket_udp.c prints of the messages that reach it, alone and with the `client`.
use apue_pratice.Prelude.{
  ℕ, zero, suc, ◌≡◌, refl, ap, ◌∙◌, Option, none, some, List, [], ◌∷◌, map, arith, length,
  replicate,
}
use apue_pratice.Prelude.Int.{ℤ, pos, negsuc}
use apue_pratice.Prelude.Outcome.{Outcome, done, ◌>>=◌}
use apue_pratice.Socket.Message.{name_size, msg_size, msg_bytes, filled}
use apue_pratice.Socket.Layout.{print_msg-filled, length-received}
use apue_pratice.Socket.Udp.{
  Sender, ntohs, dotted, Server, Printed, after_recv, show_packet, udp_server, sal_msg, udp_client,
  Sent, IsSendable, AllSendable, meant, arrival, last_messages, datagram,
}

-- The server's locals hold what is printed as `p`.
abbrev Shows : Server → Printed → Type 0
Shows s p = (length s.msg ≡ msg_size) × (show_packet s ≡ done p)

recv-Shows :
    (m : Sent) (s : Server)
    → IsSendable m
    → length s.msg ≡ msg_size
    → Shows (after_recv (arrival (some m)) s) (meant m)
recv-Shows m s ok l = (
  length-received (msg_bytes (filled m.text m.math_sent m.chinese_sent m.rubbish)) s.msg l,
  ap
      (λ o. o >>= λ x. done (
        let p : Printed = record {
          from_ip = dotted m.sender.ip;
          from_port = ntohs m.sender.port;
          line = x;
        } in
        p))
      (print_msg-filled m.text m.rubbish s.msg m.math_sent m.chinese_sent ok.without_nul
        ok.fits_name ok.array l ok.math_word ok.chinese_word),
)

then_line :
    (m : Outcome Printed) (n : Outcome (List Printed)) {p : Printed} {ps : List Printed}
    → m ≡ done p
    → n ≡ done ps
    → (m >>= λ p'. n >>= λ qs. done (p' ∷ qs)) ≡ done (p ∷ ps)
then_line m n {p} e f =
    ap (λ o. o >>= λ p'. n >>= λ qs. done (p' ∷ qs)) e ∙ ap (λ o. o >>= λ qs. done (p ∷ qs)) f

server-Shows :
    (s : Server) (p : Printed) (ms : List (Option Sent))
    → Shows s p
    → AllSendable ms
    → udp_server s (map arrival ms) ≡ done (last_messages p ms)
unfolding udp_server last_messages
server-Shows s p [] h ok = refl
server-Shows s p (none ∷ ms) h ok =
    then_line (show_packet s) (udp_server s (map arrival ms)) h.1 (server-Shows s p ms h ok)
server-Shows s p (some m ∷ ms) h ok =
    let s' : Server = after_recv (arrival (some m)) s in
    let h' : Shows s' (meant m) = recv-Shows m s ok.0 h.0 in
    then_line (show_packet s') (udp_server s' (map arrival ms)) h'.1
      (server-Shows s' (meant m) ms h' ok.1)

-- Whatever stands in the struct at first, from the first message on the `server` of socket_udp.c prints, for
-- each call of `recvfrom`, the name and the numbers that the sender of the last message meant, and where
-- it came from: the message of this call, or, when the call fails, that of the call before, once more.
pub udp_server_prints :
    (s : Server) (m : Sent) (ms : List (Option Sent))
    → length s.msg ≡ msg_size
    → IsSendable m
    → AllSendable ms
    → udp_server s (map arrival (some m ∷ ms)) ≡ done (meant m ∷ last_messages (meant m) ms)
unfolding udp_server
udp_server_prints s m ms l ok oks =
    let s' : Server = after_recv (arrival (some m)) s in
    let h' : Shows s' (meant m) = recv-Shows m s ok l in
    then_line (show_packet s') (udp_server s' (map arrival ms)) h'.1
      (server-Shows s' (meant m) ms h' oks)

-- The calls of `sendto` before the first that fails.
abbrev pub sends : List ℤ → ℕ
sends [] = 0
sends (pos n ∷ rs) = suc (sends rs)
sends (negsuc n ∷ rs) = 0

udp_client-sends :
    (bytes : List ℕ) (rs : List ℤ) → (udp_client bytes rs).0 ≡ replicate (sends rs) bytes
unfolding udp_client
udp_client-sends bytes [] = refl
udp_client-sends bytes (pos n ∷ rs) = ap (λ bs. bytes ∷ bs) (udp_client-sends bytes rs)
udp_client-sends bytes (negsuc n ∷ rs) = refl

-- The message of `client`, from a place.
abbrev pub sal_sent : List ℕ → Sender → Sent
sal_sent junk from = record {
  text = 115 ∷ 97 ∷ 108 ∷ [];
  math_sent = 100;
  chinese_sent = 100;
  rubbish = junk;
  sender = from;
}

map-arrivals :
    (n : ℕ) (junk : List ℕ) (from : Sender)
    → map (λ bytes. datagram bytes from) (replicate n (msg_bytes (sal_msg junk)))
      ≡ map arrival (replicate n (some (sal_sent junk from)))
map-arrivals zero junk from = refl
map-arrivals (suc n) junk from =
    ap (λ rs. datagram (msg_bytes (sal_msg junk)) from ∷ rs) (map-arrivals n junk from)

last_messages-replicate :
    (n : ℕ) (m : Sent) → last_messages (meant m) (replicate n (some m)) ≡ replicate n (meant m)
unfolding last_messages
last_messages-replicate zero m = refl
last_messages-replicate (suc n) m = ap (λ ps. meant m ∷ ps) (last_messages-replicate n m)

AllSendable-replicate : (n : ℕ) (m : Sent) → IsSendable m → AllSendable (replicate n (some m))
AllSendable-replicate zero m ok = tt
AllSendable-replicate (suc n) m ok = (ok, AllSendable-replicate n m ok)

sal_sent-IsSendable :
    (junk : List ℕ) (from : Sender) → length junk ≡ name_size → IsSendable (sal_sent junk from)
sal_sent-IsSendable junk from j = record {
  without_nul = refl;
  fits_name = omega arith;
  array = j;
  math_word = omega arith;
  chinese_word = omega arith;
}

all_sal :
    (n : ℕ) (s : Server) (junk : List ℕ) (from : Sender)
    → length s.msg ≡ msg_size
    → length junk ≡ name_size
    → udp_server s (map arrival (replicate n (some (sal_sent junk from))))
      ≡ done (replicate n (meant (sal_sent junk from)))
unfolding udp_server
all_sal zero s junk from l j = refl
all_sal (suc n) s junk from l j =
    let sal : Sent = sal_sent junk from in
    let ok : IsSendable sal = sal_sent-IsSendable junk from j in
    udp_server_prints s sal (replicate n (some sal)) l ok (AllSendable-replicate n sal ok)
    ∙ ap (λ ps. done (meant sal ∷ ps)) (last_messages-replicate n sal)

-- When all that the `client` of socket_udp.c sends reaches the `server`, this prints "sal", 100 and 100
-- once for each `sendto` before the first that failed, whatever stood in the struct of either at first.
pub udp_end_to_end :
    (s : Server) (junk : List ℕ) (from : Sender) (rs : List ℤ)
    → length s.msg ≡ msg_size
    → length junk ≡ name_size
    → udp_server s (map (λ bytes. datagram bytes from) (udp_client (msg_bytes (sal_msg junk)) rs).0)
      ≡ done (replicate (sends rs) (meant (sal_sent junk from)))
udp_end_to_end s junk from rs l j =
    ap (λ bs. udp_server s (map (λ bytes. datagram bytes from) bs))
      (udp_client-sends (msg_bytes (sal_msg junk)) rs)
    ∙ ap (udp_server s) (map-arrivals (sends rs) junk from)
    ∙ all_sal (sends rs) s junk from l j
