-- ===== src/Socket/Reports.antt =====
-- How socket/socket_udp.c and socket/socket_tcp.c start: the options of `main`, and the calls of the system
-- before the loops, each with the report that is printed before exit(1) when it fails. What the calls
-- return is given. A text is a list of ASCII codes.
use apue_pratice.Prelude.{
  ℕ, Bool, true, false, ◌&&◌, Option, none, some, List, [], ◌∷◌, ◌==◌, if◌then◌else◌,
}
use apue_pratice.Prelude.Int.{ℤ, pos, negsuc}
use apue_pratice.Prelude.Outcome.{Outcome, done, fault, ◌>>=◌}

pub data Opt : Type 0 where
  server_opt : Opt  -- -s
  client_opt : Opt  -- -c
  host_opt : List ℕ → Opt  -- -h
  iface_opt : List ℕ → Opt  -- -i, which only socket_udp.c knows
  other_opt : Opt

-- The locals `s`, `c`, `host` and `i` of `main`.
pub record Args : Type 0 where
  pub s : Bool
  pub c : Bool
  pub host : Option (List ℕ)
  pub iface : Option (List ℕ)

abbrev pub no_args : Args
no_args = record { s = false; c = false; host = none; iface = none }

-- The loops over `getopt`.
unfoldable pub udp_options : List Opt → Args → Args
udp_options [] a = a
udp_options (server_opt ∷ opts) a = udp_options opts (record a { s = true })
udp_options (client_opt ∷ opts) a = udp_options opts (record a { c = true })
udp_options (host_opt h ∷ opts) a = udp_options opts (record a { host = some h })
udp_options (iface_opt i ∷ opts) a = udp_options opts (record a { iface = some i })
udp_options (other_opt ∷ opts) a = udp_options opts a

unfoldable pub tcp_options : List Opt → Args → Args
tcp_options [] a = a
tcp_options (server_opt ∷ opts) a = tcp_options opts (record a { s = true })
tcp_options (client_opt ∷ opts) a = tcp_options opts (record a { c = true })
tcp_options (host_opt h ∷ opts) a = tcp_options opts (record a { host = some h })
tcp_options (iface_opt i ∷ opts) a = tcp_options opts a
tcp_options (other_opt ∷ opts) a = tcp_options opts a

pub data Report : Type 0 where
  broadcast_failed : Report  -- perror("setsockopt")
  iface_missing : Report  -- "provide iface by -i eth0"
  group_failed : Report  -- perror("setsockopt()")
  socket_failed : Report
  pton_failed : Report
  bind_failed : Report
  listen_failed : Report
  accept_failed : Report
  connect_failed : Report

-- A check that ends the program with a report.
abbrev pub report_if : Bool → Report → Option Report
report_if failed r = if failed then some r else none

-- The first report ends the program.
infixr 20 ◌or_else◌
abbrev pub ◌or_else◌ : Option Report → Option Report → Option Report
some r or_else b = some r
none or_else b = b

abbrev pub negative : ℤ → Bool
negative (pos n) = false
negative (negsuc n) = true

-- `inet_pton(...) != 1`
abbrev pub not_one : ℤ → Bool
not_one (pos n) = if n == 1 then false else true
not_one (negsuc n) = true

-- What the calls return, by the descriptor that they are given.
pub record UdpCalls : Type 0 where
  pub socket : ℤ
  pub broadcast : ℤ → ℤ
  pub join_group : ℤ → ℤ
  pub pton : List ℕ → ℤ
  pub bind : ℤ → ℤ

-- "0.0.0.0"
abbrev pub any_host : List ℕ
any_host = 48 ∷ 46 ∷ 48 ∷ 46 ∷ 48 ∷ 46 ∷ 48 ∷ []

-- strncmp(host, "224", 3) == 0
abbrev pub multicast : List ℕ → Bool
multicast (a ∷ b ∷ c ∷ rest) = (a == 50) && (b == 50) && (c == 52)
multicast _ = false

abbrev pub iface_report : Option (List ℕ) → Option Report
iface_report none = some iface_missing
iface_report (some i) = none

-- The checks that `server` and `client` of socket_udp.c have in common.
abbrev pub udp_socket : List ℕ → Option (List ℕ) → UdpCalls → Option Report
udp_socket host iface calls =
    (if multicast host
      then (iface_report iface
          or_else report_if (negative (calls.join_group calls.socket)) group_failed)
      else none)
    or_else report_if (negative calls.socket) socket_failed

unfoldable pub udp_server_open : Option (List ℕ) → Option (List ℕ) → UdpCalls → Option Report
udp_server_open host iface calls =
    report_if (negative (calls.broadcast calls.socket)) broadcast_failed
    or_else udp_socket (elim host [ some h ↦ h | none ↦ any_host ]) iface calls
    or_else report_if (not_one (calls.pton any_host)) pton_failed
    or_else report_if (negative (calls.bind calls.socket)) bind_failed

-- Without a host, `strncmp` reads at NULL.
abbrev pub udp_client_host : Option (List ℕ) → Option (List ℕ) → UdpCalls → Outcome (Option Report)
udp_client_host none iface calls = fault
udp_client_host (some host) iface calls =
    done (udp_socket host iface calls or_else report_if (not_one (calls.pton host)) pton_failed)

unfoldable pub udp_client_open :
    Option (List ℕ) → Option (List ℕ) → UdpCalls → Outcome (Option Report)
udp_client_open host iface calls =
    if negative (calls.broadcast calls.socket)
    then done (some broadcast_failed)
    else udp_client_host host iface calls

-- What a program does after the checks.
pub data Start : Type 0 where
  usage : Start
  reported : Report → Start
  serving : Start
  sending : Start

abbrev pub start_or : Start → Option Report → Start
start_or go none = go
start_or go (some r) = reported r

-- `main` of socket_udp.c, up to the loops.
unfoldable pub udp_main : ℕ → List Opt → UdpCalls → Outcome Start
udp_main argc opts calls =
    let a = udp_options opts no_args in
    if argc == 1
    then done usage
    else if a.s
    then done (start_or serving (udp_server_open a.host a.iface calls))
    else (udp_client_open a.host a.iface calls >>= λ r. done (start_or sending r))

pub record TcpCalls : Type 0 where
  pub socket : ℤ
  pub pton : List ℕ → ℤ
  pub bind : ℤ → ℤ
  pub listen : ℤ → ℤ
  pub accept : ℤ → ℤ
  pub connect : ℤ → ℤ

unfoldable pub tcp_server_open : TcpCalls → Option Report
tcp_server_open calls =
    report_if (negative calls.socket) socket_failed
    or_else report_if (not_one (calls.pton any_host)) pton_failed
    or_else report_if (negative (calls.bind calls.socket)) bind_failed
    or_else report_if (negative (calls.listen calls.socket)) listen_failed
    or_else report_if (negative (calls.accept calls.socket)) accept_failed

-- Without a host, `inet_pton` reads at NULL.
abbrev pub tcp_client_host : Option (List ℕ) → TcpCalls → Outcome (Option Report)
tcp_client_host none calls = fault
tcp_client_host (some host) calls = done (
    report_if (not_one (calls.pton host)) pton_failed
    or_else report_if (negative (calls.connect calls.socket)) connect_failed)

unfoldable pub tcp_client_open : Option (List ℕ) → TcpCalls → Outcome (Option Report)
tcp_client_open host calls =
    if negative calls.socket then done (some socket_failed) else tcp_client_host host calls

-- `main` of socket_tcp.c, up to the loops.
unfoldable pub tcp_main : ℕ → List Opt → TcpCalls → Outcome Start
tcp_main argc opts calls =
    let a = tcp_options opts no_args in
    if argc == 1
    then done usage
    else if a.s
    then done (start_or serving (tcp_server_open calls))
    else (tcp_client_open a.host calls >>= λ r. done (start_or sending r))
