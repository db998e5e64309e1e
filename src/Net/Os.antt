-- ===== src/Net/Os.antt =====
-- The operating system's UDP socket, as std, socket2 and nix give it: a parameter of the sockets
-- of src/net. A failed call is `none` or `false`, and leaves what it leaves of the socket.
use tiny_media_server.Prelude.{ℕ, ◌≤◌, List, Bool, Option}
use tiny_media_server.Prelude.SocketAddr.{SocketAddr}
use tiny_media_server.Tasks.Roles.{Uses}

-- `recv_from n` fills a buffer of `n` bytes and answers what it wrote. `ready` counts the
-- datagrams that have come in.
pub record OsSocket : Type 1 where
  pub UdpSocket : Type 0
  pub local_addr : UdpSocket → Option SocketAddr
  pub send_to : List ℕ → SocketAddr → UdpSocket → Option ℕ × UdpSocket
  pub sendmmsg : List (List ℕ) → List (Option SocketAddr) → UdpSocket → Bool × UdpSocket
  pub recv_from : ℕ → UdpSocket → Option (List ℕ × SocketAddr) × UdpSocket
  pub ready : UdpSocket → ℕ

-- A datagram that is read leaves the socket, and a call that sends reads none.
pub record OsLaws (os : OsSocket) : Type 0 where
  pub send_ready :
      (buf : List ℕ) (to : SocketAddr) (s : os.UdpSocket)
      → os.ready (os.send_to buf to s).1 ≤ os.ready s
  pub sendmmsg_ready :
      (bufs : List (List ℕ)) (to : List (Option SocketAddr)) (s : os.UdpSocket)
      → os.ready (os.sendmmsg bufs to s).1 ≤ os.ready s
  pub recv-Uses :
      (n : ℕ) (s : os.UdpSocket)
      → Uses (os.recv_from n s).0 (os.ready s) (os.ready (os.recv_from n s).1)
