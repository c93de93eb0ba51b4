-- ===== src/Socket/TcpRuns.antt =====
-- What the `server` of socket/socket_tcp.c prints, by what its reads bring, alone and with the `client`.
use mathlib.Core.Path.{ap₂}
use apue_pratice.Prelude.{
  take-all, take-append, drop-append, ℕ, zero, suc, ◌≡◌, refl, sym, ap, ◌∙◌, ◌<◌, inl, inr,
  Bool-cases, ◌&&◌, Bool, true, false, List, [], ◌∷◌, ◌++◌, map, arith, length, take, drop,
  replicate,
}
use apue_pratice.Prelude.Int.{pos}
use apue_pratice.Prelude.Outcome.{Outcome, done, fault, ◌>>=◌}
use apue_pratice.Socket.Message.{name_size, msg_size, Line, print_msg, received, print_msg}
use apue_pratice.Socket.Layout.{print_msg-filled, length-filled, length-received}
use apue_pratice.Socket.Tcp.{
  ReadResult, Session, tcp_server, tcp_client, TcpSent, IsTcpSendable, meant_line, bytes_of,
  AllTcpSendable, chunk, closed, broken,
}
use apue_pratice.Socket.Printed.{has_nul, print_msg-by_nul}

-- The last of some lines.
abbrev pub last_line : Line → List Line → Line
last_line l [] = l
last_line l (k ∷ ks) = last_line k ks

abbrev Shows : List ℕ → Line → Type 0
Shows msg l = (length msg ≡ msg_size) × (print_msg msg ≡ done l)

received-Shows :
    (m : TcpSent) (old : List ℕ)
    → IsTcpSendable m
    → length old ≡ msg_size
    → Shows (received (bytes_of m) old) (meant_line m)
received-Shows m old ok l = (
  length-received (bytes_of m) old l,
  print_msg-filled m.text m.rubbish old m.math_sent m.chinese_sent ok.without_nul ok.fits_name
      ok.array l ok.math_word ok.chinese_word,
)

then_session :
    (m : Outcome Line) (n : Outcome Session) {l : Line} {s : Session}
    → m ≡ done l
    → n ≡ done s
    → (m >>= λ l'.
        n >>= λ s'. done (let t : Session = record { lines = l' ∷ s'.lines; over = s'.over } in t))
      ≡ done (record { lines = l ∷ s.lines; over = s.over })
then_session m n {l} e f =
    ap
      (λ o. o >>= λ l'.
        n >>= λ s'. done (let t : Session = record { lines = l' ∷ s'.lines; over = s'.over } in t))
      e
    ∙ ap
        (λ o.
          o >>= λ s'. done (let t : Session = record { lines = l ∷ s'.lines; over = s'.over } in t))
        f

tcp_server-some_bytes :
    (msg bytes : List ℕ) (rs : List ReadResult)
    → 0 < length bytes
    → tcp_server msg (chunk bytes ∷ rs) ≡ (
        print_msg (received bytes msg) >>= λ l'. tcp_server (received bytes msg) rs >>= λ s'.
        done (let t : Session = record { lines = l' ∷ s'.lines; over = s'.over } in t))
unfolding tcp_server
tcp_server-some_bytes msg [] rs h = absurd (omega (arith, h))
tcp_server-some_bytes msg (b ∷ bytes) rs h = refl

length-bytes_of : (m : TcpSent) → IsTcpSendable m → length (bytes_of m) ≡ msg_size
length-bytes_of m ok =
    length-filled m.text m.rubbish m.math_sent m.chinese_sent ok.fits_name ok.array

server_whole :
    (msg : List ℕ) (l : Line) (ms : List TcpSent)
    → Shows msg l
    → AllTcpSendable ms
    → tcp_server msg (map (λ m. chunk (bytes_of m)) ms ++ closed ∷ [])
      ≡ done (record {
        lines = map meant_line ms ++ last_line l (map meant_line ms) ∷ [];
        over = true;
      })
unfolding tcp_server
server_whole msg l [] h ok =
    ap (λ o. o >>= λ l'. done (let t : Session = record { lines = l' ∷ []; over = true } in t)) h.1
server_whole msg l (m ∷ ms) h ok =
    let msg' : List ℕ = received (bytes_of m) msg in
    let h' : Shows msg' (meant_line m) = received-Shows m msg ok.0 h.0 in
    tcp_server-some_bytes msg (bytes_of m) (map (λ k. chunk (bytes_of k)) ms ++ closed ∷ [])
      (omega (arith, length-bytes_of m ok.0))
    ∙ then_session (print_msg msg')
        (tcp_server msg' (map (λ k. chunk (bytes_of k)) ms ++ closed ∷ [])) h'.1
        (server_whole msg' (meant_line m) ms h' ok.1)

-- Where each `read` brings one whole message, the `server` of socket_tcp.c prints each message as its sender
-- meant it, then the last one once more when the client has closed, and leaves its loop.
pub tcp_server-whole :
    (msg : List ℕ) (m : TcpSent) (ms : List TcpSent)
    → length msg ≡ msg_size
    → IsTcpSendable m
    → AllTcpSendable ms
    → tcp_server msg (map (λ k. chunk (bytes_of k)) (m ∷ ms) ++ closed ∷ [])
      ≡ done (record {
        lines = map meant_line (m ∷ ms) ++ last_line (meant_line m) (map meant_line ms) ∷ [];
        over = true;
      })
unfolding tcp_server
tcp_server-whole msg m ms l ok oks =
    let msg' : List ℕ = received (bytes_of m) msg in
    let h' : Shows msg' (meant_line m) = received-Shows m msg ok l in
    tcp_server-some_bytes msg (bytes_of m) (map (λ k. chunk (bytes_of k)) ms ++ closed ∷ [])
      (omega (arith, length-bytes_of m ok))
    ∙ then_session (print_msg msg')
        (tcp_server msg' (map (λ k. chunk (bytes_of k)) ms ++ closed ∷ [])) h'.1
        (server_whole msg' (meant_line m) ms h' oks)

-- The reads up to the first that finds the end of the stream.
abbrev pub reads_done : List ReadResult → ℕ
reads_done [] = 0
reads_done (chunk [] ∷ rs) = 1
reads_done (chunk (b ∷ bytes) ∷ rs) = suc (reads_done rs)
reads_done (broken ∷ rs) = suc (reads_done rs)
reads_done (closed ∷ rs) = 1

abbrev pub has_end : List ReadResult → Bool
has_end [] = false
has_end (chunk [] ∷ rs) = true
has_end (chunk (b ∷ bytes) ∷ rs) = has_end rs
has_end (broken ∷ rs) = has_end rs
has_end (closed ∷ rs) = true

-- Whether there is a NUL in the struct whenever it is printed.
abbrev pub all_end : List ℕ → List ReadResult → Bool
all_end msg [] = true
all_end msg (chunk [] ∷ rs) = has_nul (received [] msg)
all_end msg (chunk (b ∷ bytes) ∷ rs) =
    has_nul (received (b ∷ bytes) msg) && all_end (received (b ∷ bytes) msg) rs
all_end msg (broken ∷ rs) = has_nul msg && all_end msg rs
all_end msg (closed ∷ rs) = has_nul msg

-- What the loop comes to after reads: that many lines, and whether it was left.
abbrev pub Reads : List ℕ → List ReadResult → Type 0
Reads msg rs =
    (all_end msg rs ≡ true
      → (s : Session) × (tcp_server msg rs ≡ done s)
        × (length s.lines ≡ reads_done rs)
        × (s.over ≡ has_end rs))
    × (all_end msg rs ≡ false → tcp_server msg rs ≡ fault)

one_more_read :
    (msg msg' : List ℕ) (rs rs' : List ReadResult)
    → tcp_server msg rs ≡ (
        print_msg msg' >>= λ l'. tcp_server msg' rs' >>= λ s'.
        done (let t : Session = record { lines = l' ∷ s'.lines; over = s'.over } in t))
    → all_end msg rs ≡ (has_nul msg' && all_end msg' rs')
    → reads_done rs ≡ suc (reads_done rs')
    → has_end rs ≡ has_end rs'
    → Reads msg' rs'
    → Reads msg rs
one_more_read msg msg' rs rs' run ends count ended r = (
  λ h.
      let (l, q) = (print_msg-by_nul msg').0 (ground (arith, h, ends)) in
      let (s, e, n, o) = r.0 (ground (arith, h, ends)) in
      (
        record { lines = l ∷ s.lines; over = s.over },
        run ∙ then_session (print_msg msg') (tcp_server msg' rs') q e,
        omega (arith, n, count),
        o ∙ sym ended,
      ),
  λ h. elim (Bool-cases (has_nul msg')) [
    | inr none_there ↦ run ∙ rw ((print_msg-by_nul msg').1 none_there) refl
    | inl there ↦
        let (l, q) = (print_msg-by_nul msg').0 there in
        run ∙ rw (q, r.1 (ground (arith, h, ends, there))) refl
  ],
)

last_read :
    (msg msg' : List ℕ) (rs : List ReadResult)
    → tcp_server msg rs ≡ (
        print_msg msg' >>= λ l.
        done (let t : Session = record { lines = l ∷ []; over = true } in t))
    → all_end msg rs ≡ has_nul msg'
    → reads_done rs ≡ 1
    → has_end rs ≡ true
    → Reads msg rs
last_read msg msg' rs run ends count ended = (
  λ h.
      let (l, q) = (print_msg-by_nul msg').0 (sym ends ∙ h) in
      (
        record { lines = l ∷ []; over = true },
        run
            ∙ ap
                (λ o.
                  o >>= λ l'. done (let t : Session = record { lines = l' ∷ []; over = true } in t))
                q,
        sym count,
        sym ended,
      ),
  λ h. run ∙ rw ((print_msg-by_nul msg').1 (sym ends ∙ h)) refl,
)

-- Where the struct has a NUL whenever it is printed, the `server` of socket_tcp.c prints one line for
-- each `read`, not for each message, up to and including the one that finds the end; and only that ends
-- its loop: after an error it reads on. Where it once has none, the `printf` reads past the struct, which
-- is undefined.
pub tcp_server-reads :
    (msg : List ℕ) (rs : List ReadResult)
    → (all_end msg rs ≡ true
        → (s : Session) × (tcp_server msg rs ≡ done s)
          × (length s.lines ≡ reads_done rs)
          × (s.over ≡ has_end rs))
      × (all_end msg rs ≡ false → tcp_server msg rs ≡ fault)
unfolding tcp_server
tcp_server-reads msg [] = (λ h. (_, refl, refl, refl), λ h. cc)
tcp_server-reads msg (chunk [] ∷ rs) =
    last_read msg (received [] msg) (chunk [] ∷ rs) refl refl refl refl
tcp_server-reads msg (chunk (b ∷ bytes) ∷ rs) =
    let msg' : List ℕ = received (b ∷ bytes) msg in
    one_more_read msg msg' (chunk (b ∷ bytes) ∷ rs) rs refl refl refl refl
      (tcp_server-reads msg' rs)
tcp_server-reads msg (closed ∷ rs) = last_read msg msg (closed ∷ rs) refl refl refl refl
tcp_server-reads msg (broken ∷ rs) =
    one_more_read msg msg (broken ∷ rs) rs refl refl refl refl (tcp_server-reads msg rs)

-- A stream as it is cut by `n` reads that each bring as much as fits.
abbrev pub cut_whole : ℕ → List ℕ → List ReadResult
cut_whole zero stream = []
cut_whole (suc n) stream = chunk (take msg_size stream) ∷ cut_whole n (drop msg_size stream)

-- The message of `client`.
abbrev pub tcp_sal : List ℕ → TcpSent
tcp_sal junk = record {
  text = 115 ∷ 97 ∷ 108 ∷ [];
  math_sent = 100;
  chinese_sent = 100;
  rubbish = junk;
}

tcp_sal-sendable : (junk : List ℕ) → length junk ≡ name_size → IsTcpSendable (tcp_sal junk)
tcp_sal-sendable junk j = record {
  without_nul = refl;
  fits_name = omega arith;
  array = j;
  math_word = omega arith;
  chinese_word = omega arith;
}

cut_whole-client :
    (n : ℕ) (m : TcpSent)
    → IsTcpSendable m
    → cut_whole n (tcp_client (bytes_of m) (replicate n (pos msg_size))).0
      ≡ map (λ k. chunk (bytes_of k)) (replicate n m)
unfolding tcp_client
cut_whole-client zero m ok = refl
cut_whole-client (suc n) m ok =
    let rest : List ℕ = (tcp_client (bytes_of m) (replicate n (pos msg_size))).0 in
    let l : length (bytes_of m) ≡ msg_size = length-bytes_of m ok in
    let whole : take msg_size (bytes_of m) ≡ bytes_of m =
      take-all msg_size (bytes_of m) (omega (arith, l)) in
    ap (λ b. chunk (take msg_size (b ++ rest)) ∷ cut_whole n (drop msg_size (b ++ rest))) whole
    ∙ ap₂ (λ b r. chunk b ∷ cut_whole n r) (take-append msg_size (bytes_of m) rest l)
        (drop-append msg_size (bytes_of m) rest l)
    ∙ ap (λ rs. chunk (bytes_of m) ∷ rs) (cut_whole-client n m ok)

AllTcpSendable-replicate : (n : ℕ) (m : TcpSent) → IsTcpSendable m → AllTcpSendable (replicate n m)
AllTcpSendable-replicate zero m ok = tt
AllTcpSendable-replicate (suc n) m ok = (ok, AllTcpSendable-replicate n m ok)

last_line-replicate :
    (n : ℕ) (m : TcpSent) → last_line (meant_line m) (map meant_line (replicate n m)) ≡ meant_line m
last_line-replicate zero m = refl
last_line-replicate (suc n) m = last_line-replicate n m

-- Where the `client` of socket_tcp.c could write its message whole `n + 1` times and then closes, and each
-- `read` of the `server` brings as much as fits into the struct, the server prints "sal", 100 and 100
-- once for each message and once more at the end, and leaves its loop.
pub tcp_end_to_end :
    (n : ℕ) (msg junk : List ℕ)
    → length msg ≡ msg_size
    → length junk ≡ name_size
    → tcp_server msg (
        cut_whole
          (suc n)
          (tcp_client (bytes_of (tcp_sal junk)) (replicate (suc n) (pos msg_size))).0
        ++ closed ∷ [])
      ≡ done (record {
        lines = map meant_line (replicate (suc n) (tcp_sal junk)) ++ meant_line (tcp_sal junk) ∷ [];
        over = true;
      })
tcp_end_to_end n msg junk l j =
    let sal : TcpSent = tcp_sal junk in
    let ok : IsTcpSendable sal = tcp_sal-sendable junk j in
    ap (λ rs. tcp_server msg (rs ++ closed ∷ [])) (cut_whole-client (suc n) sal ok)
    ∙ tcp_server-whole msg sal (replicate n sal) l ok (AllTcpSendable-replicate n sal ok)
    ∙ ap
        (λ k. done (
          let t : Session = record {
            lines = map meant_line (replicate (suc n) sal) ++ k ∷ [];
            over = true;
          } in
          t))
        (last_line-replicate n sal)
