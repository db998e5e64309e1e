-- ===== src/Net/Opening.antt =====
-- How the sockets of src/net are opened: the code that socket2.rs, socket2_mmsg.rs and
-- socket2_io_uring.rs have in common.
use tiny_media_server.Prelude.{
  ℕ, ◌*◌, List, [], ◌∷◌, Bool, true, Option, Outcome, ok, ◌>>=◌, Halt, no_socket, unresolved_addr,
  refused_bind, refused_send_buffer, refused_recv_buffer, refused_nonblocking, no_local_addr,
  no_socket_addr, no_ring, unsupported_opcode, Ends, Ends-bind,
}
use tiny_media_server.Prelude.SocketAddr.{SocketAddr}
use tiny_media_server.Tasks.Session.{expect}
use tiny_media_server.Tasks.Session.Laws.{expect-Ends}

pub data Protocol : Type 0 where
  udp : Protocol

-- The crate socket2, a parameter. `create` opens a socket of `Domain::IPV4` and `Type::DGRAM`; a
-- call that fails is `none`. `local_addr` answers nothing within if the address is no IP address.
pub record Socket2 : Type 1 where
  pub Socket : Type 0
  pub create : Option Protocol → Option Socket
  pub bind : SocketAddr → Socket → Option Socket
  pub set_send_buffer_size : ℕ → Socket → Option Socket
  pub set_recv_buffer_size : ℕ → Socket → Option Socket
  pub set_nonblocking : Bool → Socket → Option Socket
  pub local_addr : Socket → Option (Option SocketAddr)

-- The panics that the opening of a socket may end in. That RECV_QUEUE is no multiple of the size of
-- a group is not among them.
abbrev pub OpenPanic : Halt → Type 0
OpenPanic no_socket = Unit
OpenPanic unresolved_addr = Unit
OpenPanic refused_bind = Unit
OpenPanic refused_send_buffer = Unit
OpenPanic refused_recv_buffer = Unit
OpenPanic refused_nonblocking = Unit
OpenPanic no_local_addr = Unit
OpenPanic no_socket_addr = Unit
OpenPanic no_ring = Unit
OpenPanic unsupported_opcode = Unit
OpenPanic _ = ⊥

module _ (s2 : Socket2) where
  unfoldable pub bind_all : List SocketAddr → s2.Socket → Outcome s2.Socket
  bind_all [] socket = ok socket
  bind_all (addr ∷ addrs) socket = do
    socket' ← expect refused_bind (s2.bind addr socket)
    bind_all addrs socket'

  -- `ip_addr` is what its to_socket_addrs answers.
  unfoldable pub open_socket : Option Protocol → Option (List SocketAddr) → Outcome s2.Socket
  unfolding bind_all
  open_socket protocol ip_addr = do
    created ← expect no_socket (s2.create protocol)
    addrs ← expect unresolved_addr ip_addr
    bound ← bind_all addrs created
    sends ← expect refused_send_buffer (s2.set_send_buffer_size (1024 * 1024) bound)
    receives ← expect refused_recv_buffer (s2.set_recv_buffer_size (1024 * 1024) sends)
    expect refused_nonblocking (s2.set_nonblocking true receives)

  bind_all-Ends :
      (addrs : List SocketAddr) (socket : s2.Socket)
      → Ends (λ _. Unit) OpenPanic (bind_all addrs socket)
  unfolding bind_all
  bind_all-Ends [] socket = tt
  bind_all-Ends (addr ∷ addrs) socket =
      Ends-bind (λ _. Unit) (λ _. Unit) OpenPanic (expect refused_bind (s2.bind addr socket)) _
        (expect-Ends refused_bind OpenPanic (s2.bind addr socket) tt)
        λ socket' _ _. bind_all-Ends addrs socket'

  pub open_socket-Ends :
      (protocol : Option Protocol) (ip_addr : Option (List SocketAddr))
      → Ends (λ _. Unit) OpenPanic (open_socket protocol ip_addr)
  unfolding open_socket
  open_socket-Ends protocol ip_addr =
      Ends-bind (λ _. Unit) (λ _. Unit) OpenPanic _ _
        (expect-Ends no_socket OpenPanic (s2.create protocol) tt)
        λ created _ _.
          Ends-bind (λ _. Unit) (λ _. Unit) OpenPanic _ _
            (expect-Ends unresolved_addr OpenPanic ip_addr tt)
            λ addrs _ _.
              Ends-bind (λ _. Unit) (λ _. Unit) OpenPanic _ _ (bind_all-Ends addrs created)
                λ bound _ _.
                  Ends-bind (λ _. Unit) (λ _. Unit) OpenPanic _ _
                    (expect-Ends refused_send_buffer OpenPanic
                      (s2.set_send_buffer_size (1024 * 1024) bound) tt)
                    λ sends _ _.
                      Ends-bind (λ _. Unit) (λ _. Unit) OpenPanic _ _
                        (expect-Ends refused_recv_buffer OpenPanic
                          (s2.set_recv_buffer_size (1024 * 1024) sends) tt)
                        λ receives _ _.
                          expect-Ends refused_nonblocking OpenPanic
                            (s2.set_nonblocking true receives) tt
