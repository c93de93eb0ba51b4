-- ===== src/Socket/Starts.antt =====
-- When the programs of `Socket/Reports.antt` serve, send, report or fault.
use apue_pratice.Prelude.{
  ℕ, ◌≡◌, refl, ◌≢◌, ◌↔◌, Bool, true, false, ◌||◌, Option, none, some, List, [], ◌∷◌, arith,
}
use apue_pratice.Prelude.Int.{ℤ}
use apue_pratice.Prelude.Outcome.{Outcome, done, fault, blocked, ◌>>=◌}
use apue_pratice.Socket.Reports.{
  Opt, Args, no_args, udp_options, tcp_options, Report, negative, not_one, UdpCalls, any_host,
  multicast, udp_server_open, udp_client_open, start_or, udp_main, TcpCalls, tcp_server_open,
  tcp_client_open, tcp_main, server_opt, client_opt, host_opt, iface_opt, other_opt,
  broadcast_failed, socket_failed, usage, reported, serving, sending,
}

abbrev pub has_server : List Opt → Bool
has_server [] = false
has_server (server_opt ∷ opts) = true
has_server (client_opt ∷ opts) = has_server opts
has_server (host_opt h ∷ opts) = has_server opts
has_server (iface_opt i ∷ opts) = has_server opts
has_server (other_opt ∷ opts) = has_server opts

-- Some -h stands among the options.
abbrev pub has_host : List Opt → Bool
has_host [] = false
has_host (host_opt h ∷ opts) = true
has_host (server_opt ∷ opts) = has_host opts
has_host (client_opt ∷ opts) = has_host opts
has_host (iface_opt i ∷ opts) = has_host opts
has_host (other_opt ∷ opts) = has_host opts

abbrev pub is_given : {A : Type 0} → Option A → Bool
is_given none = false
is_given (some a) = true

udp_options-s : (opts : List Opt) (a : Args) → (udp_options opts a).s ≡ (a.s || has_server opts)
unfolding udp_options
udp_options-s [] a = ground arith
udp_options-s (server_opt ∷ opts) a = ground (arith, udp_options-s opts (record a { s = true }))
udp_options-s (client_opt ∷ opts) a = udp_options-s opts (record a { c = true })
udp_options-s (host_opt h ∷ opts) a = udp_options-s opts (record a { host = some h })
udp_options-s (iface_opt i ∷ opts) a = udp_options-s opts (record a { iface = some i })
udp_options-s (other_opt ∷ opts) a = udp_options-s opts a

udp_options-host :
    (opts : List Opt) (a : Args)
    → is_given (udp_options opts a).host ≡ (is_given a.host || has_host opts)
unfolding udp_options
udp_options-host [] a = ground arith
udp_options-host (server_opt ∷ opts) a = udp_options-host opts (record a { s = true })
udp_options-host (client_opt ∷ opts) a = udp_options-host opts (record a { c = true })
udp_options-host (host_opt h ∷ opts) a =
    ground (arith, udp_options-host opts (record a { host = some h }))
udp_options-host (iface_opt i ∷ opts) a = udp_options-host opts (record a { iface = some i })
udp_options-host (other_opt ∷ opts) a = udp_options-host opts a

tcp_options-s : (opts : List Opt) (a : Args) → (tcp_options opts a).s ≡ (a.s || has_server opts)
unfolding tcp_options
tcp_options-s [] a = ground arith
tcp_options-s (server_opt ∷ opts) a = ground (arith, tcp_options-s opts (record a { s = true }))
tcp_options-s (client_opt ∷ opts) a = tcp_options-s opts (record a { c = true })
tcp_options-s (host_opt h ∷ opts) a = tcp_options-s opts (record a { host = some h })
tcp_options-s (iface_opt i ∷ opts) a = tcp_options-s opts a
tcp_options-s (other_opt ∷ opts) a = tcp_options-s opts a

tcp_options-host :
    (opts : List Opt) (a : Args)
    → is_given (tcp_options opts a).host ≡ (is_given a.host || has_host opts)
unfolding tcp_options
tcp_options-host [] a = ground arith
tcp_options-host (server_opt ∷ opts) a = tcp_options-host opts (record a { s = true })
tcp_options-host (client_opt ∷ opts) a = tcp_options-host opts (record a { c = true })
tcp_options-host (host_opt h ∷ opts) a =
    ground (arith, tcp_options-host opts (record a { host = some h }))
tcp_options-host (iface_opt i ∷ opts) a = tcp_options-host opts a
tcp_options-host (other_opt ∷ opts) a = tcp_options-host opts a

udp_client_open-fault :
    (host iface : Option (List ℕ)) (calls : UdpCalls)
    → (udp_client_open host iface calls ≡ fault)
      ↔ ((is_given host ≡ false) × (negative (calls.broadcast calls.socket) ≡ false))
unfolding udp_client_open
udp_client_open-fault none iface calls = (λ q. ground arith, λ h. ground (arith, h.1))
udp_client_open-fault (some host) iface calls =
    (λ q. ground arith, λ h. absurd (ground (arith, h.0)))

after_open :
    (m : Outcome (Option Report)) → ((m >>= λ r. done (start_or sending r)) ≡ fault) ↔ (m ≡ fault)
after_open (done r) = (λ q. cc, λ q. cc)
after_open fault = (λ q. refl, λ q. refl)
after_open blocked = (λ q. cc, λ q. cc)

-- `main` of socket_udp.c runs into undefined behaviour exactly when it has options, but neither -s nor
-- -h, and broadcasting could be enabled.
pub udp_main-fault :
    (argc : ℕ) (opts : List Opt) (calls : UdpCalls)
    → (udp_main argc opts calls ≡ fault) ↔ (
        (argc ≢ 1)
        × (has_server opts ≡ false)
        × (has_host opts ≡ false)
        × (negative (calls.broadcast calls.socket) ≡ false))
unfolding udp_main
udp_main-fault argc opts calls =
    let a : Args = udp_options opts no_args in
    let served : a.s ≡ has_server opts = udp_options-s opts no_args in
    let named : is_given a.host ≡ has_host opts = udp_options-host opts no_args in
    let opened : (udp_client_open a.host a.iface calls ≡ fault)
        ↔ ((is_given a.host ≡ false) × (negative (calls.broadcast calls.socket) ≡ false)) =
      udp_client_open-fault a.host a.iface calls in
    let after : ((udp_client_open a.host a.iface calls >>= λ r. done (start_or sending r)) ≡ fault)
        ↔ (udp_client_open a.host a.iface calls ≡ fault) =
      after_open (udp_client_open a.host a.iface calls) in
    (
      λ q. ground (arith, served, named, opened, after),
      λ h. ground (arith, served, named, opened, after),
    )

-- A `server` of socket_udp.c comes to its loop exactly when each of its calls succeeds, where a multicast
-- host also needs an interface and the membership of the group.
pub udp_server_open-none :
    (host iface : Option (List ℕ)) (calls : UdpCalls)
    → (udp_server_open host iface calls ≡ none) ↔ (
        (negative (calls.broadcast calls.socket) ≡ false)
        × ((h : List ℕ)
            → host ≡ some h
            → multicast h ≡ true
            → (is_given iface ≡ true) × (negative (calls.join_group calls.socket) ≡ false))
        × (negative calls.socket ≡ false)
        × (not_one (calls.pton any_host) ≡ false)
        × (negative (calls.bind calls.socket) ≡ false))
unfolding udp_server_open
udp_server_open-none none iface calls = (λ q. ground arith, λ h. ground arith)
udp_server_open-none (some host) iface calls =
    (λ q. ground arith, λ h. ground (arith, h.1 host refl))

-- Where `setsockopt` fails on a descriptor that is none, no run of socket_udp.c reports that `socket`
-- failed: that failure is reported as one of `setsockopt`.
pub udp_hides_socket :
    (argc : ℕ) (opts : List Opt) (calls : UdpCalls)
    → ((d : ℤ) → negative d ≡ true → negative (calls.broadcast d) ≡ true)
    → (udp_main argc opts calls ≢ done (reported socket_failed))
      × (negative calls.socket ≡ true
          → argc ≢ 1
          → udp_main argc opts calls ≡ done (reported broadcast_failed))
unfolding udp_main udp_server_open udp_client_open
udp_hides_socket argc opts calls bad =
    (λ q. ground (arith, bad calls.socket, q), λ n a. ground (arith, bad calls.socket))

-- A run of socket_tcp.c: without arguments the usage, with -s a server that serves exactly when its five
-- calls succeed, and else a client, which runs into undefined behaviour exactly when it has a socket and no
-- -h.
pub tcp_main_starts :
    (argc : ℕ) (opts : List Opt) (calls : TcpCalls)
    → (argc ≡ 1 → tcp_main argc opts calls ≡ done usage)
      × ((tcp_main argc opts calls ≡ done serving) ↔ (
          (argc ≢ 1)
          × (has_server opts ≡ true)
          × (negative calls.socket ≡ false)
          × (not_one (calls.pton any_host) ≡ false)
          × (negative (calls.bind calls.socket) ≡ false)
          × (negative (calls.listen calls.socket) ≡ false)
          × (negative (calls.accept calls.socket) ≡ false)))
      × ((tcp_main argc opts calls ≡ fault) ↔ (
          (argc ≢ 1)
          × (has_server opts ≡ false)
          × (has_host opts ≡ false)
          × (negative calls.socket ≡ false)))
unfolding tcp_main tcp_server_open tcp_client_open
tcp_main_starts argc opts calls =
    let a : Args = tcp_options opts no_args in
    let served : a.s ≡ has_server opts = tcp_options-s opts no_args in
    let named : is_given a.host ≡ has_host opts = tcp_options-host opts no_args in
    (
      λ q. ground (arith, q),
      (λ q. ground (arith, q, served), λ h. ground (arith, h, served)),
      (λ q. ground (arith, q, served, named), λ h. ground (arith, h, served, named)),
    )
