-- ===== src/Socket.antt =====
-- The programs of socket/: udp_echo.c, socket_udp.c and socket_tcp.c. Both of the last two send the packed
-- 24-byte `struct msg_st`; the machine stores its numbers with the low byte first.
pub mod Message
pub mod Layout
pub mod Reports
pub mod Starts
pub mod Udp
pub mod UdpRuns
pub mod Tcp
pub mod Printed
pub mod TcpRuns
pub mod Echo
mod Tests
