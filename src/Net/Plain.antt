-- ===== src/Net/Plain.antt =====
-- src/net/socket2.rs: `UdpSocket2`. Its buffer is written and read within one call of `recv_from`,
-- and is no part of the state.
use tiny_media_server.Prelude.{
  ℕ, List, true, Option, none, Outcome, ok, ◌>>=◌, no_local_addr, Ends, Ends-bind, ◌≤◌,
}
use tiny_media_server.Prelude.SocketAddr.{SocketAddr}
use tiny_media_server.Tasks.Roles.{Uses}
use tiny_media_server.Tasks.Session.{expect}
use tiny_media_server.Net.{UdpSocketGeneric, UdpLaws}
use tiny_media_server.Net.Os.{OsSocket, OsLaws}
use tiny_media_server.Tasks.Session.Laws.{expect-Ends}
use tiny_media_server.Net.Opening.{Socket2, open_socket, OpenPanic, open_socket-Ends}

pub record UdpSocket2 (os : OsSocket) : Type 0 where
  pub socket : os.UdpSocket
  pub local_addr : SocketAddr

-- The size of a receive buffer.
abbrev pub buf_size : ℕ
buf_size = 1500

module _ (os : OsSocket) where
  unfoldable pub add_send_to : List ℕ → SocketAddr → UdpSocket2 os → Option ℕ × UdpSocket2 os
  add_send_to buf addr s =
      let (sent, socket) = os.send_to buf addr s.socket in (sent, record s { socket = socket })

  unfoldable pub recv_from : UdpSocket2 os → Option (List ℕ × SocketAddr) × UdpSocket2 os
  recv_from s =
      let (got, socket) = os.recv_from buf_size s.socket in (got, record s { socket = socket })

  unfoldable pub new :
      (s2 : Socket2)
      → (s2.Socket → os.UdpSocket)
      → Option (List SocketAddr)
      → Outcome (UdpSocket2 os)
  unfolding open_socket
  new s2 into ip_addr = do
    socket ← open_socket s2 none ip_addr
    local_addr ← expect no_local_addr (os.local_addr (into socket))
    ok (record { socket = into socket; local_addr = local_addr })

  pub new-Ends :
      (s2 : Socket2) (into : s2.Socket → os.UdpSocket) (ip_addr : Option (List SocketAddr))
      → Ends (λ _. Unit) OpenPanic (new s2 into ip_addr)
  unfolding new
  new-Ends s2 into ip_addr =
      Ends-bind (λ _. Unit) (λ _. Unit) OpenPanic (open_socket s2 none ip_addr) _
        (open_socket-Ends s2 none ip_addr)
        λ socket _ _.
          Ends-bind (λ _. Unit) (λ _. Unit) OpenPanic
            (expect no_local_addr (os.local_addr (into socket))) _
            (expect-Ends no_local_addr OpenPanic (os.local_addr (into socket)) tt)
            λ local_addr _ _. tt

  abbrev pub plain_socket : UdpSocketGeneric
  plain_socket = record {
    Socket = UdpSocket2 os;
    prepare = ok;
    local_addr = λ s. s.local_addr;
    add_send_to = λ buf dest s. ok (add_send_to buf dest s);
    commit_send_to = λ s. ok (true, s);
    recv_from = λ s. ok (recv_from s);
    finish_read_from = λ s. ok (true, s);
    ready = λ s. os.ready s.socket;
  }

  pub recv_from-Uses :
      (laws : OsLaws os) (s : UdpSocket2 os)
      → Uses (recv_from s).0 (os.ready s.socket) (os.ready (recv_from s).1.socket)
  unfolding recv_from
  recv_from-Uses laws s = laws.recv-Uses buf_size s.socket

  pub add_send_to-ready :
      (laws : OsLaws os) (buf : List ℕ) (dest : SocketAddr) (s : UdpSocket2 os)
      → os.ready (add_send_to buf dest s).1.socket ≤ os.ready s.socket
  unfolding add_send_to
  add_send_to-ready laws buf dest s = laws.send_ready buf dest s.socket

  -- The laws, which hold of any state.
  abbrev pub any_state : OsLaws os → UdpLaws plain_socket
  any_state laws = record {
    Holds = λ s. Unit;
    prepare-Ends = λ s h. tt;
    add_send-Ends = λ buf dest s h. (tt, add_send_to-ready laws buf dest s);
    recv-Ends = λ s h. (tt, recv_from-Uses laws s);
    commit-Ends = λ s h. tt;
    finish-Ends = λ s h. tt;
  }

  -- Over an operating system's socket whose receives use up what has arrived, the plain socket
  -- meets the laws that the worker needs of its socket.
  pub plain_laws : OsLaws os → UdpLaws plain_socket
  plain_laws laws = any_state laws
