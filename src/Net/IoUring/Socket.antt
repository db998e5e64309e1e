-- ===== src/Net/IoUring/Socket.antt =====
-- `UdpSocket2IoUring`: the socket's queues. Its const parameters are `send_queue` and `recv_queue`.
use tiny_media_server.Prelude.{
  ℕ, zero, suc, ◌+◌, ◌-◌, ◌*◌, ◌/◌, ◌%◌, ◌^◌, List, [], ◌∷◌, ◌++◌, map, Bool, true, false, Option,
  none, some, not, is_empty, length, drop, replicate, ltb, leb, if◌then◌else◌, Outcome, ok, halt,
  out_of_fuel, ◌>>=◌, datagram_too_long, out_of_bounds, ring_full, no_buffer_id, unparsed_packet,
  refused_submit,
}
use tiny_media_server.Prelude.SocketAddr.{SocketAddr}
use tiny_media_server.Tasks.Session.{expect}
use tiny_media_server.Net.{UdpSocketGeneric}
use tiny_media_server.Net.Mmsg.{update_at}
use tiny_media_server.Net.IoUring.{
  UserData, send, recv, provide_buffers, to_u32, index, into_u64, from_u64, recv_buf_group_size,
}
use tiny_media_server.Net.IoUring.Ring.{NetPacket, IoUring, send_msg_zc, provide, recv_msg_multi}

pub record UdpSocket2IoUring (io : IoUring) : Type 0 where
  pub ring : io.Ring
  pub local_addr : SocketAddr
  pub send_bufs : List NetPacket
  pub send_free_queue : List ℕ
  pub read_wait_queue : List ℕ
  pub read_wait_free_groups : List ℕ
  pub ring_queue_changed : Bool

-- from..from + n
abbrev pub range : ℕ → ℕ → List ℕ
range from zero = []
range from (suc n) = from ∷ range (from + 1) n

-- Port 0 of 127.0.0.1.
abbrev pub default_packet : NetPacket
default_packet = record {
  buf = replicate 1500 0;
  addr = record { ip = 127 * 2 ^ 24 + 1; port = 0 };
  iov_len = 0;
}

unfoldable pub fill_packet : List ℕ → SocketAddr → NetPacket → Outcome NetPacket
fill_packet buf dest pkt =
    if leb (length buf) (length pkt.buf)
    then ok (record { buf = buf ++ drop (length buf) pkt.buf; addr = dest; iov_len = length buf })
    else halt datagram_too_long

abbrev pub whole_packet : NetPacket → NetPacket
whole_packet pkt = record pkt { iov_len = length pkt.buf }

module _ (io : IoUring) where
  -- What `new` makes of the socket and the ring that it has opened.
  unfoldable pub opened : ℕ → SocketAddr → io.Ring → UdpSocket2IoUring io
  opened send_queue local_addr ring = record {
    ring = ring;
    local_addr = local_addr;
    send_bufs = replicate send_queue default_packet;
    send_free_queue = range 0 send_queue;
    read_wait_queue = [];
    read_wait_free_groups = [];
    ring_queue_changed = false;
  }

  -- One completion.
  unfoldable pub on_completion :
      UserData → io.Flags → UdpSocket2IoUring io → Outcome (UdpSocket2IoUring io)
  on_completion (recv group) flags s =
      if io.more flags
      then (expect no_buffer_id (io.buffer_select flags) >>= λ idx.
          ok (record s { read_wait_queue = s.read_wait_queue ++ to_u32 group idx ∷ [] }))
      else ok (record s { read_wait_free_groups = s.read_wait_free_groups ++ group ∷ [] })
  on_completion (send idx) flags s =
      if io.more flags
      then ok s
      else ok (record s { send_free_queue = s.send_free_queue ++ idx ∷ [] })
  on_completion (provide_buffers idx) flags s = ok s

  unfoldable pub poll_loop : ℕ → UdpSocket2IoUring io → Outcome (UdpSocket2IoUring io)
  poll_loop zero s = out_of_fuel
  poll_loop (suc fuel) s =
      let s' = record s { ring = (io.next_completion s.ring).1 } in
      elim (io.next_completion s.ring).0 [
        | none ↦ ok s'
        | some (user_data, flags) ↦ do
          s'' ← on_completion (from_u64 user_data) flags s'
          poll_loop fuel s''
      ]

  unfoldable pub poll_completions : UdpSocket2IoUring io → Outcome (UdpSocket2IoUring io)
  poll_completions s = poll_loop (suc (io.completed s.ring)) s

  -- The rest of `add_send_to`, with the head of the free queue.
  unfoldable pub send_packet :
      List ℕ → SocketAddr → ℕ → UdpSocket2IoUring io → Outcome (UdpSocket2IoUring io)
  send_packet buf dest pkt_idx s = do
    bufs ← update_at pkt_idx (fill_packet buf dest) s.send_bufs
    ring ← expect ring_full (io.push (send_msg_zc pkt_idx (into_u64 (send pkt_idx))) s.ring)
    ok (record s { send_bufs = bufs; ring = ring; ring_queue_changed = true })

  unfoldable pub add_to_free :
      List ℕ
      → SocketAddr
      → UdpSocket2IoUring io
      → List ℕ
      → Outcome (Option ℕ × UdpSocket2IoUring io)
  add_to_free buf dest s [] = ok (none, s)
  add_to_free buf dest s (pkt_idx ∷ free) = do
    s' ← send_packet buf dest pkt_idx (record s { send_free_queue = free })
    ok (some (length buf), s')

  unfoldable pub add_send_to :
      List ℕ → SocketAddr → UdpSocket2IoUring io → Outcome (Option ℕ × UdpSocket2IoUring io)
  add_send_to buf dest s = do s' ← poll_completions s; add_to_free buf dest s' s'.send_free_queue

  unfoldable pub commit_send_to : UdpSocket2IoUring io → Bool × UdpSocket2IoUring io
  commit_send_to s =
      if s.ring_queue_changed
      then (let (submitted, ring) = io.submit s.send_bufs s.ring in
          (submitted, record s { ring = ring; ring_queue_changed = not submitted }))
      else (true, s)

  unfoldable pub recv_waiting :
      ℕ
      → UdpSocket2IoUring io
      → List ℕ
      → Outcome (Option (List ℕ × SocketAddr) × UdpSocket2IoUring io)
  recv_waiting recv_queue s [] = ok (none, s)
  recv_waiting recv_queue s (idx ∷ waiting) = do
    d ←
        if ltb idx recv_queue
        then expect unparsed_packet (io.read_buf idx s.ring)
        else halt out_of_bounds
    ok (some d, record s { read_wait_queue = waiting })

  unfoldable pub recv_from :
      ℕ → UdpSocket2IoUring io → Outcome (Option (List ℕ × SocketAddr) × UdpSocket2IoUring io)
  recv_from recv_queue s = do s' ← poll_completions s; recv_waiting recv_queue s' s'.read_wait_queue

  -- The loop of `prepare_read` over the buffers of the group.
  unfoldable pub provide_bufs : ℕ → ℕ → List ℕ → io.Ring → Outcome io.Ring
  provide_bufs recv_queue group [] ring = ok ring
  provide_bufs recv_queue group (idx ∷ indices) ring = do
    ring' ←
        if ltb idx recv_queue
        then expect ring_full
            (io.push (provide group (index idx) (into_u64 (provide_buffers idx))) ring)
        else halt out_of_bounds
    provide_bufs recv_queue group indices ring'

  -- A group is a u16: `group + 1` wraps in a release build.
  unfoldable pub prepare_read : ℕ → ℕ → UdpSocket2IoUring io → Outcome (UdpSocket2IoUring io)
  prepare_read recv_queue group s = do
    let begin_idx = to_u32 group 0
    let end_idx = to_u32 ((group + 1) % 2 ^ 16) 0
    ring ← provide_bufs recv_queue group (range begin_idx (end_idx - begin_idx)) s.ring
    ring' ← expect ring_full (io.push (recv_msg_multi group (into_u64 (recv group))) ring)
    let (submitted, ring'') = io.submit s.send_bufs ring'
    if submitted then ok (record s { ring = ring'' }) else halt refused_submit

  unfoldable pub prepare_groups : ℕ → List ℕ → UdpSocket2IoUring io → Outcome (UdpSocket2IoUring io)
  prepare_groups recv_queue [] s = ok s
  prepare_groups recv_queue (group ∷ groups) s = do
    s' ← prepare_read recv_queue (group % 2 ^ 16) s
    prepare_groups recv_queue groups s'

  -- preapre_write: the pointers are set up, and every packet's length is that of its buffer.
  abbrev pub prepare_write : UdpSocket2IoUring io → UdpSocket2IoUring io
  prepare_write s = record s { send_bufs = map whole_packet s.send_bufs }

  unfoldable pub prepare : ℕ → UdpSocket2IoUring io → Outcome (UdpSocket2IoUring io)
  prepare recv_queue s =
      prepare_groups recv_queue (range 0 (recv_queue / recv_buf_group_size)) (prepare_write s)

  unfoldable pub finish_groups : ℕ → UdpSocket2IoUring io → List ℕ → Outcome (UdpSocket2IoUring io)
  finish_groups recv_queue s [] = ok s
  finish_groups recv_queue s (group ∷ groups) =
      prepare_read recv_queue group (record s { read_wait_free_groups = groups })

  unfoldable pub finish_read_from : ℕ → UdpSocket2IoUring io → Outcome (UdpSocket2IoUring io)
  finish_read_from recv_queue s =
      if is_empty s.read_wait_queue
      then finish_groups recv_queue s s.read_wait_free_groups
      else ok s

  -- What `recv_from` can have in store: the buffers that wait, and the completions.
  abbrev pub store : UdpSocket2IoUring io → ℕ
  store s = length s.read_wait_queue + io.completed s.ring

  abbrev pub uring_socket : ℕ → UdpSocketGeneric
  uring_socket recv_queue = record {
    Socket = UdpSocket2IoUring io;
    prepare = prepare recv_queue;
    local_addr = λ s. s.local_addr;
    add_send_to = add_send_to;
    commit_send_to = λ s. ok (commit_send_to s);
    recv_from = recv_from recv_queue;
    finish_read_from = λ s. finish_read_from recv_queue s >>= λ s'. ok (true, s');
    ready = store;
  }
