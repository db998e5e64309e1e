-- ===== src/Net/IoUring/Laws.antt =====
-- The io_uring socket of src/net/socket2_io_uring.rs as the socket of a worker.
use tiny_media_server.Prelude.{
  ◌>>=◌, Option, ring_full, no_buffer_id, unparsed_packet, refused_submit, datagram_too_long, ℕ,
  zero, suc, ◌^◌, ◌≤◌, ◌<◌, ◌≡◌, List, [], ◌∷◌, All, true, false, ok, halt, length, leb, Halt, Ends,
  Ends-bind, Ends-weaken, Ends-Yields, Ends-Yielding, arith, Bool-cases, inl, inr, Bool,
}
use tiny_media_server.Prelude.SocketAddr.{SocketAddr}
use tiny_media_server.Tasks.Roles.{Uses}
use tiny_media_server.Net.{UdpLaws, SocketPanic}
use tiny_media_server.Net.Mmsg.{update_at}
use tiny_media_server.Net.IoUring.Ring.{NetPacket, IoUring, RingLaws}
use tiny_media_server.Net.IoUring.Socket.{
  UdpSocket2IoUring, fill_packet, poll_completions, send_packet, add_to_free, add_send_to,
  recv_from, finish_read_from, store, uring_socket,
}
use tiny_media_server.Net.IoUring.Slots.{IsWhole, Slots, SendPanic, poll_completions-Ends}
use tiny_media_server.Net.IoUring.Sending.{add_send_to-Slots}
use tiny_media_server.Net.IoUring.Lifetime.{
  Call, IsSmall, call, prepare_call, commit, finish, recv_from-Slots,
}
use tiny_media_server.Net.IoUring.Receiving.{ReadLaws, ReadPanic, Reads, recv_from-Reads}
use tiny_media_server.Net.IoUring.Bounds.{
  InBounds, SendPanic-ReadPanic, counted-below, add_send_to-Reads, call-InBounds,
}
use tiny_media_server.Net.IoUring.Store.{StoreLaws, NoMore, add_send_to-NoMore, recv_from-Uses}

ReadPanic-SocketPanic : (p : Halt) → ReadPanic p → SocketPanic p
ReadPanic-SocketPanic ring_full h = tt
ReadPanic-SocketPanic no_buffer_id h = tt
ReadPanic-SocketPanic unparsed_packet h = tt
ReadPanic-SocketPanic refused_submit h = tt
ReadPanic-SocketPanic _ h = absurd h

SendPanic-SocketPanic : (p : Halt) → SendPanic p → SocketPanic p
SendPanic-SocketPanic p h = ReadPanic-SocketPanic p (SendPanic-ReadPanic p h)

-- A datagram that no packet has room for.
update_at-too_long :
    (i : ℕ) (buf : List ℕ) (dest : SocketAddr) (pkts : List NetPacket)
    → i < length pkts
    → All IsWhole pkts
    → 1500 < length buf
    → update_at i (fill_packet buf dest) pkts ≡ halt datagram_too_long
unfolding update_at fill_packet
update_at-too_long i buf dest [] lt whole long = absurd (omega (arith, lt))
update_at-too_long zero buf dest (p ∷ pkts) lt whole long =
    let no_room : leb (length buf) (length p.buf) ≡ false = ground (arith, whole.0, long) in
    rw no_room
update_at-too_long (suc i) buf dest (p ∷ pkts) lt whole long =
    rw (update_at-too_long i buf dest pkts (omega (arith, lt)) whole.1 long)

module _ (io : IoUring) (laws : RingLaws io) (reads : ReadLaws io) (stores : StoreLaws io) (n : ℕ)
    (words : n ≤ 2 ^ 32) (recv_queue : ℕ) where
  -- Both halves of the socket are as they should be.
  abbrev pub Holds : UdpSocket2IoUring io → Type 0
  Holds = InBounds io laws reads n words recv_queue

  -- With no free packet the datagram is refused, else it does not fit the packet.
  too_long-Ends :
      (buf : List ℕ) (dest : SocketAddr) (s : UdpSocket2IoUring io) (free : List ℕ)
      → 1500 < length buf
      → All (λ i. i < n) free
      → Slots io n s
      → Ends (λ r. Slots io n r.1) SocketPanic (add_to_free io buf dest s free)
  unfolding add_to_free send_packet
  too_long-Ends buf dest s [] long below h = h
  too_long-Ends buf dest s (i ∷ free) long below h =
      rw (update_at-too_long i buf dest s.send_bufs (omega (arith, below.0, h.bufs)) h.whole long)
        tt

  add_too_long-Ends :
      (buf : List ℕ) (dest : SocketAddr) (s : UdpSocket2IoUring io)
      → 1500 < length buf
      → Slots io n s
      → Ends (λ r. Slots io n r.1) SocketPanic (add_send_to io buf dest s)
  unfolding add_send_to
  add_too_long-Ends buf dest s long h =
      Ends-bind (Slots io n) (λ r. Slots io n r.1) SocketPanic (poll_completions io s) _
        (Ends-weaken (Slots io n) (Slots io n) SendPanic SocketPanic (poll_completions io s)
          (poll_completions-Ends io laws n s h) (λ x k. k) SendPanic-SocketPanic)
        λ s' _ k.
          too_long-Ends buf dest s' s'.send_free_queue long
            (counted-below n s'.send_free_queue (λ j. omega (arith, k.conserved j))) k

  add-Slots :
      (buf : List ℕ) (dest : SocketAddr) (s : UdpSocket2IoUring io)
      → Slots io n s
      → Ends (λ r. Slots io n r.1) SocketPanic (add_send_to io buf dest s)
  add-Slots buf dest s h = elim (Bool-cases (leb (length buf) 1500)) [
    | inl small ↦
        Ends-weaken (λ r. Slots io n r.1) (λ r. Slots io n r.1) SendPanic SocketPanic
          (add_send_to io buf dest s)
          (add_send_to-Slots io laws n words buf dest s (ground (arith, small)) h) (λ r k. k)
          SendPanic-SocketPanic
    | inr long ↦ add_too_long-Ends buf dest s (ground (arith, long)) h
  ]

  pub add-Holds :
      (buf : List ℕ) (dest : SocketAddr) (s : UdpSocket2IoUring io)
      → Holds s
      → Ends (λ r. Holds r.1 × (store io r.1 ≤ store io s)) SocketPanic (add_send_to io buf dest s)
  add-Holds buf dest s h =
      let call = add_send_to io buf dest s in
      Ends-Yields (λ r. Holds r.1) (λ r. NoMore io laws stores s r.1) SocketPanic call
        (Ends-weaken (λ r. Slots io n r.1 × Reads io laws reads recv_queue r.1) (λ r. Holds r.1)
          SocketPanic SocketPanic call
          (Ends-Yields (λ r. Slots io n r.1) (λ r. Reads io laws reads recv_queue r.1) SocketPanic
            call (add-Slots buf dest s h.1)
            (add_send_to-Reads io laws reads n words recv_queue buf dest s h))
          (λ r k. (k.1, k.0)) (λ p q. q))
        (add_send_to-NoMore io laws stores buf dest s)

  pub recv-Holds :
      (s : UdpSocket2IoUring io)
      → Holds s
      → Ends
          (λ r. Holds r.1 × Uses r.0 (store io s) (store io r.1))
          SocketPanic
          (recv_from io recv_queue s)
  recv-Holds s h =
      let call = recv_from io recv_queue s in
      let uses = λ (r : Option (List ℕ × SocketAddr) × UdpSocket2IoUring io).
        Uses r.0 (store io s) (store io r.1) in
      Ends-weaken (λ r. Holds r.1 × uses r) (λ r. Holds r.1 × uses r) ReadPanic SocketPanic call
        (Ends-Yields (λ r. Holds r.1) uses ReadPanic call
          (Ends-Yields (λ r. Reads io laws reads recv_queue r.1) (λ r. Slots io n r.1) ReadPanic
            call (recv_from-Reads io laws reads recv_queue s h.0)
            (Ends-Yielding (λ r. Slots io n r.1) (λ _. Unit) call
              (recv_from-Slots io laws n words recv_queue s h.1)))
          (recv_from-Uses io laws stores recv_queue s))
        (λ r k. k) ReadPanic-SocketPanic

  -- The calls that answer nothing that counts.
  pub call-Holds :
      (c : Call) (s : UdpSocket2IoUring io)
      → IsSmall c
      → Holds s
      → Ends Holds SocketPanic (call io recv_queue c s)
  call-Holds c s small h =
      Ends-weaken Holds Holds ReadPanic SocketPanic (call io recv_queue c s)
        (call-InBounds io laws reads n words recv_queue c s small h) (λ x k. k)
        ReadPanic-SocketPanic

  pub finish-Holds :
      (s : UdpSocket2IoUring io)
      → Holds s
      → Ends
          (λ (x : Bool × UdpSocket2IoUring io). Holds x.1)
          SocketPanic
          (finish_read_from io recv_queue s >>= λ s'. ok (true, s'))
  finish-Holds s h =
      Ends-bind Holds (λ (x : Bool × UdpSocket2IoUring io). Holds x.1) SocketPanic
        (finish_read_from io recv_queue s) (λ s'. ok (true, s')) (call-Holds finish s tt h)
        λ s' _ k. k

  -- The laws, with what they hold of.
  abbrev pub uring_laws : UdpLaws (uring_socket io recv_queue)
  uring_laws = record {
    Holds = Holds;
    prepare-Ends = λ s h. call-Holds prepare_call s tt h;
    add_send-Ends = add-Holds;
    recv-Ends = recv-Holds;
    commit-Ends = λ s h. call-Holds commit s tt h;
    finish-Ends = finish-Holds;
  }
