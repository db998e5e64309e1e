-- ===== src/Net.antt =====
-- src/net.rs: the trait `UdpSocketGeneric`. An `io::Error` is only ever logged, so a failed call
-- returns `none` or `false`; a call may also panic.
pub mod Os
pub mod Opening
pub mod Plain
pub mod Mmsg
pub mod IoUring
pub mod Wire
use tiny_media_server.Prelude.{
  ℕ, List, Bool, Option, Outcome, Halt, Ends, datagram_too_long, ring_full, no_buffer_id,
  unparsed_packet, refused_submit, ◌≤◌,
}
use tiny_media_server.Prelude.SocketAddr.{SocketAddr}
use tiny_media_server.Tasks.Roles.{Uses}

-- `ready` is no part of the trait: it bounds how many datagrams `recv_from` has in store.
pub record UdpSocketGeneric : Type 1 where
  pub Socket : Type 0
  pub prepare : Socket → Outcome Socket
  pub local_addr : Socket → SocketAddr
  pub add_send_to : List ℕ → SocketAddr → Socket → Outcome (Option ℕ × Socket)
  pub commit_send_to : Socket → Outcome (Bool × Socket)
  pub recv_from : Socket → Outcome (Option (List ℕ × SocketAddr) × Socket)
  pub finish_read_from : Socket → Outcome (Bool × Socket)
  pub ready : Socket → ℕ

-- The panics that the sockets may end in.
abbrev pub SocketPanic : Halt → Type 0
SocketPanic datagram_too_long = Unit
SocketPanic ring_full = Unit
SocketPanic no_buffer_id = Unit
SocketPanic unparsed_packet = Unit
SocketPanic refused_submit = Unit
SocketPanic _ = ⊥

-- What the worker relies on: from a socket of which `Holds` is true each call comes to an end, with
-- such a socket; a received datagram leaves the store, and sending brings none.
pub record UdpLaws (u : UdpSocketGeneric) : Type 1 where
  pub Holds : u.Socket → Type 0
  pub prepare-Ends : (s : u.Socket) → Holds s → Ends Holds SocketPanic (u.prepare s)
  pub add_send-Ends :
      (buf : List ℕ) (dest : SocketAddr) (s : u.Socket)
      → Holds s
      → Ends (λ x. Holds x.1 × (u.ready x.1 ≤ u.ready s)) SocketPanic (u.add_send_to buf dest s)
  pub recv-Ends :
      (s : u.Socket)
      → Holds s
      → Ends (λ x. Holds x.1 × Uses x.0 (u.ready s) (u.ready x.1)) SocketPanic (u.recv_from s)
  pub commit-Ends :
      (s : u.Socket) → Holds s → Ends (λ x. Holds x.1) SocketPanic (u.commit_send_to s)
  pub finish-Ends :
      (s : u.Socket) → Holds s → Ends (λ x. Holds x.1) SocketPanic (u.finish_read_from s)
