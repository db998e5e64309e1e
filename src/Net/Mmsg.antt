-- ===== src/Net/Mmsg.antt =====
-- src/net/socket2_mmsg.rs: `UdpSocket2Mmsg`, which queues datagrams and sends them by one call of
-- sendmmsg. The headers that nix keeps for the call belong to the parameter `sendmmsg`.
pub mod Queue
pub mod Refinement
pub mod Laws
use tiny_media_server.Prelude.{
  ℕ, zero, suc, ◌+◌, List, [], ◌∷◌, ◌++◌, Bool, true, false, Option, none, some, length, take, drop,
  replicate, leb, nat_beq, if◌then◌else◌, Outcome, ok, halt, ◌>>=◌, datagram_too_long,
  out_of_bounds, no_local_addr,
}
use tiny_media_server.Prelude.SocketAddr.{SocketAddr}
use tiny_media_server.Tasks.Session.{expect}
use tiny_media_server.Net.{UdpSocketGeneric}
use tiny_media_server.Net.Os.{OsSocket}
use tiny_media_server.Net.Opening.{Socket2, open_socket}

-- One entry of `bufs`: the bytes, 1500 of them, and how many of them are the datagram's.
pub record Slot : Type 0 where
  pub bytes : List ℕ
  pub len : ℕ

pub record UdpSocket2Mmsg (os : OsSocket) : Type 0 where
  pub socket : os.UdpSocket
  pub local_addr : SocketAddr
  pub bufs : List Slot
  pub addrs : List (Option SocketAddr)
  pub queue_len : ℕ

-- `&xs[0..n]`
unfoldable pub slice_to {ℓ} : {A : Type ℓ} → ℕ → List A → Outcome (List A)
slice_to n xs = if leb n (length xs) then ok (take n xs) else halt out_of_bounds

-- An update of `xs[i]` that may panic.
unfoldable pub update_at {ℓ} : {A : Type ℓ} → ℕ → (A → Outcome A) → List A → Outcome (List A)
update_at i f [] = halt out_of_bounds
update_at zero f (x ∷ xs) = do y ← f x; ok (y ∷ xs)
update_at (suc i) f (x ∷ xs) = do ys ← update_at i f xs; ok (x ∷ ys)

-- The length, and copy_from_slice into as many bytes.
unfoldable pub fill : List ℕ → Slot → Outcome Slot
fill buf slot =
    if leb (length buf) (length slot.bytes)
    then ok (record { bytes = buf ++ drop (length buf) slot.bytes; len = length buf })
    else halt datagram_too_long

-- The loop that builds `iovs`, over the first entries of `bufs`.
unfoldable pub iovs : ℕ → List Slot → Outcome (List (List ℕ))
unfolding slice_to
iovs zero bufs = ok []
iovs (suc n) [] = halt out_of_bounds
iovs (suc n) (b ∷ bufs) = do iov ← slice_to b.len b.bytes; rest ← iovs n bufs; ok (iov ∷ rest)

module _ (os : OsSocket) where
  unfoldable pub commit_send_to : UdpSocket2Mmsg os → Outcome (Bool × UdpSocket2Mmsg os)
  unfolding iovs slice_to
  commit_send_to s = do
    bufs ← iovs s.queue_len s.bufs
    addrs ← slice_to s.queue_len s.addrs
    let (sent, socket) = os.sendmmsg bufs addrs s.socket
    ok (sent, record s { socket = socket; queue_len = 0 })

  -- What `add_send_to` does once there is room.
  unfoldable pub enqueue :
      List ℕ → SocketAddr → UdpSocket2Mmsg os → Outcome (Option ℕ × UdpSocket2Mmsg os)
  unfolding update_at fill
  enqueue buf dest s = do
    bufs ← update_at s.queue_len (fill buf) s.bufs
    addrs ← update_at s.queue_len (λ _. ok (some dest)) s.addrs
    ok (some (length buf), record s { bufs = bufs; addrs = addrs; queue_len = s.queue_len + 1 })

  -- The `?` returns with the queue as `commit_send_to` left it.
  unfoldable pub enqueue_committed :
      List ℕ → SocketAddr → Bool × UdpSocket2Mmsg os → Outcome (Option ℕ × UdpSocket2Mmsg os)
  unfolding enqueue
  enqueue_committed buf dest (false, s) = ok (none, s)
  enqueue_committed buf dest (true, s) = enqueue buf dest (record s { queue_len = 0 })

  -- `queue` is the const parameter `QUEUE`.
  unfoldable pub add_send_to :
      ℕ → List ℕ → SocketAddr → UdpSocket2Mmsg os → Outcome (Option ℕ × UdpSocket2Mmsg os)
  add_send_to queue buf dest s =
      if nat_beq s.queue_len queue
      then commit_send_to s >>= enqueue_committed buf dest
      else enqueue buf dest s

  -- What `new` makes of the socket that it has opened and bound.
  unfoldable pub opened : ℕ → SocketAddr → os.UdpSocket → UdpSocket2Mmsg os
  opened queue local_addr socket = record {
    socket = socket;
    local_addr = local_addr;
    bufs = replicate queue (record { bytes = replicate 1500 0; len = 0 });
    addrs = replicate queue none;
    queue_len = 0;
  }

  unfoldable pub new :
      (s2 : Socket2)
      → (s2.Socket → os.UdpSocket)
      → ℕ
      → Option (List SocketAddr)
      → Outcome (UdpSocket2Mmsg os)
  unfolding open_socket opened
  new s2 into queue ip_addr = do
    socket ← open_socket s2 none ip_addr
    local_addr ← expect no_local_addr (os.local_addr (into socket))
    ok (opened queue local_addr (into socket))

  -- The receive buffer is written and read within the call.
  unfoldable pub recv_from : UdpSocket2Mmsg os → Option (List ℕ × SocketAddr) × UdpSocket2Mmsg os
  recv_from s =
      let (got, socket) = os.recv_from 1500 s.socket in (got, record s { socket = socket })

  abbrev pub mmsg_socket : ℕ → UdpSocketGeneric
  mmsg_socket queue = record {
    Socket = UdpSocket2Mmsg os;
    prepare = ok;
    local_addr = λ s. s.local_addr;
    add_send_to = add_send_to queue;
    commit_send_to = commit_send_to;
    recv_from = λ s. ok (recv_from s);
    finish_read_from = λ s. ok (true, s);
    ready = λ s. os.ready s.socket;
  }
