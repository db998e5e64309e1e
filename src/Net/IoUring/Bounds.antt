-- ===== src/Net/IoUring/Bounds.antt =====
-- The indices of the io_uring socket of src/net/socket2_io_uring.rs over any calls of the trait.
use tiny_media_server.Prelude.{
  ring_full, no_buffer_id, unparsed_packet, ℕ, ◌^◌, ◌≤◌, ◌<◌, ◌≡◌, List, [], ◌∷◌, All, ok, count,
  one_if, ltb, Halt, Ends, Ends-bind, Ends-weaken, Ends-Yields, Ends-Yielding, Yields, Yields-any,
  Yields-bind, arith, Option-cases, inl, inr,
}
use tiny_media_server.Prelude.SocketAddr.{SocketAddr}
use tiny_media_server.Net.Mmsg.{update_at}
use tiny_media_server.Net.IoUring.{send, into_u64, from_u64-into_u64}
use tiny_media_server.Net.IoUring.Ring.{IoUring, RingLaws, send_msg_zc}
use tiny_media_server.Net.IoUring.Socket.{
  UdpSocket2IoUring, fill_packet, opened, poll_completions, send_packet, add_to_free, add_send_to,
  recv_from,
}
use tiny_media_server.Net.IoUring.Slots.{Slots, SendPanic, poll_completions-Ends}
use tiny_media_server.Net.IoUring.Sending.{add_send_to-Slots}
use tiny_media_server.Net.IoUring.Lifetime.{
  Call, prepare_call, add, commit, receive, finish, IsSmall, call, calls, call-Slots, opened-Slots,
}
use tiny_media_server.Net.IoUring.Receiving.{
  ReadLaws, ReadPanic, Reads, poll_completions-Reads, recv_from-Reads, push-Labelled,
}
use tiny_media_server.Net.IoUring.Receiving.Groups.{
  prepare-Reads, finish_read_from-Reads, commit_send_to-Reads,
}

pub SendPanic-ReadPanic : (p : Halt) → SendPanic p → ReadPanic p
SendPanic-ReadPanic ring_full h = tt
SendPanic-ReadPanic no_buffer_id h = tt
SendPanic-ReadPanic unparsed_packet h = tt
SendPanic-ReadPanic _ h = absurd h

-- Only numbers below `n` are counted.
pub counted-below :
    (n : ℕ) (xs : List ℕ) → ((j : ℕ) → count j xs ≤ one_if (ltb j n)) → All (λ i. i < n) xs
counted-below n [] h = tt
counted-below n (x ∷ xs) h = (ground (arith, h x), counted-below n xs (λ j. omega (arith, h j)))

module _ (io : IoUring) (laws : RingLaws io) (reads : ReadLaws io) (n : ℕ) (words : n ≤ 2 ^ 32)
    (recv_queue : ℕ) where
  send_packet-Reads :
      (buf : List ℕ) (dest : SocketAddr) (i : ℕ) (s : UdpSocket2IoUring io)
      → i < n
      → Reads io laws reads recv_queue s
      → Yields (Reads io laws reads recv_queue) (send_packet io buf dest i s)
  unfolding send_packet
  send_packet-Reads buf dest i s lt h =
      let entry = send_msg_zc i (into_u64 (send i)) in
      Yields-bind (λ _. Unit) (Reads io laws reads recv_queue)
        (update_at i (fill_packet buf dest) s.send_bufs) _ (Yields-any _)
        λ bufs _. elim (Option-cases (io.push entry s.ring)) [
          | inl full ↦ rw full tt
          | inr (r, pushed) ↦ rw pushed (record {
            labelled =
                push-Labelled io laws reads recv_queue entry s.ring r
                  (rw (from_u64-into_u64 (send i) (omega (arith, lt, words))) tt) pushed h.labelled;
            waiting = h.waiting;
            groups = h.groups;
          })
        ]

  add_to_free-Reads :
      (buf : List ℕ) (dest : SocketAddr) (s : UdpSocket2IoUring io) (free : List ℕ)
      → All (λ i. i < n) free
      → Reads io laws reads recv_queue s
      → Yields (λ r. Reads io laws reads recv_queue r.1) (add_to_free io buf dest s free)
  unfolding add_to_free
  add_to_free-Reads buf dest s [] below h = h
  add_to_free-Reads buf dest s (i ∷ free) below h =
      Yields-bind (Reads io laws reads recv_queue) (λ r. Reads io laws reads recv_queue r.1)
        (send_packet io buf dest i (record s { send_free_queue = free })) _
        (send_packet-Reads buf dest i (record s { send_free_queue = free }) below.0
          (record { labelled = h.labelled; waiting = h.waiting; groups = h.groups }))
        λ s' k. k

  -- Both halves of the socket are as they should be.
  abbrev pub InBounds : UdpSocket2IoUring io → Type 0
  InBounds s = Reads io laws reads recv_queue s × Slots io n s

  pub add_send_to-Reads :
      (buf : List ℕ) (dest : SocketAddr) (s : UdpSocket2IoUring io)
      → InBounds s
      → Yields (λ r. Reads io laws reads recv_queue r.1) (add_send_to io buf dest s)
  unfolding add_send_to
  add_send_to-Reads buf dest s (h, slots) =
      Yields-bind InBounds (λ r. Reads io laws reads recv_queue r.1) (poll_completions io s) _
        (Ends-Yielding InBounds ReadPanic (poll_completions io s) (
          Ends-Yields (Reads io laws reads recv_queue) (Slots io n) ReadPanic
            (poll_completions io s) (poll_completions-Reads io laws reads recv_queue s h)
            (Ends-Yielding (Slots io n) SendPanic (poll_completions io s)
              (poll_completions-Ends io laws n s slots))))
        λ s' (k, l).
          add_to_free-Reads buf dest s' s'.send_free_queue
            (counted-below n s'.send_free_queue (λ j. omega (arith, l.conserved j))) k

  call-Reads :
      (c : Call) (s : UdpSocket2IoUring io)
      → IsSmall c
      → InBounds s
      → Ends (Reads io laws reads recv_queue) ReadPanic (call io recv_queue c s)
  call-Reads prepare_call s small h = prepare-Reads io laws reads recv_queue s h.0
  call-Reads (add buf dest) s small h =
      Ends-bind (λ r. Reads io laws reads recv_queue r.1) (Reads io laws reads recv_queue) ReadPanic
        (add_send_to io buf dest s) (λ r. ok r.1)
        (Ends-weaken (λ r. Slots io n r.1 × Reads io laws reads recv_queue r.1)
          (λ r. Reads io laws reads recv_queue r.1) SendPanic ReadPanic (add_send_to io buf dest s)
          (Ends-Yields (λ r. Slots io n r.1) (λ r. Reads io laws reads recv_queue r.1) SendPanic
            (add_send_to io buf dest s) (add_send_to-Slots io laws n words buf dest s small h.1)
            (add_send_to-Reads buf dest s h))
          (λ r k. k.1) SendPanic-ReadPanic)
        λ r _ k. k
  call-Reads commit s small h = commit_send_to-Reads io laws reads recv_queue s h.0
  call-Reads receive s small h =
      Ends-bind (λ r. Reads io laws reads recv_queue r.1) (Reads io laws reads recv_queue) ReadPanic
        (recv_from io recv_queue s) (λ r. ok r.1) (recv_from-Reads io laws reads recv_queue s h.0)
        λ r _ k. k
  call-Reads finish s small h = finish_read_from-Reads io laws reads recv_queue s h.0

  pub call-InBounds :
      (c : Call) (s : UdpSocket2IoUring io)
      → IsSmall c
      → InBounds s
      → Ends InBounds ReadPanic (call io recv_queue c s)
  call-InBounds c s small h =
      Ends-Yields (Reads io laws reads recv_queue) (Slots io n) ReadPanic (call io recv_queue c s)
        (call-Reads c s small h)
        (Ends-Yielding (Slots io n) (λ _. Unit) (call io recv_queue c s)
          (call-Slots io laws n words recv_queue c s small h.1))

  calls-InBounds :
      (cs : List Call) (s : UdpSocket2IoUring io)
      → All IsSmall cs
      → InBounds s
      → Ends InBounds ReadPanic (calls io recv_queue cs s)
  calls-InBounds [] s small h = h
  calls-InBounds (c ∷ cs) s small h =
      Ends-bind InBounds InBounds ReadPanic (call io recv_queue c s) (calls io recv_queue cs)
        (call-InBounds c s small.0 h) λ s' _ k. calls-InBounds cs s' small.1 k

  pub opened-InBounds :
      (local_addr : SocketAddr) (ring : io.Ring)
      → ((j : ℕ) → io.in_flight j ring ≡ 0)
      → reads.labels ring ≡ []
      → InBounds (opened io n local_addr ring)
  unfolding opened
  opened-InBounds local_addr ring idle unused = (
    record { labelled = rw unused tt; waiting = tt; groups = tt },
    opened-Slots io laws n words recv_queue local_addr ring idle,
  )

  -- Over a ring whose completions carry the user data of their entries and whose kernel selects
  -- one of the 16 buffers of a group, and with at most 2^32 packets, any calls of the trait on a
  -- new io_uring socket, with datagrams of at most 1500 bytes, come to an end in a panic of
  -- ReadPanic, among which there is none for an index out of bounds or a datagram that is too
  -- long, or in a state in which each buffer that waits to be read and each group that waits for
  -- the kernel is one that the socket has, and each packet is free or in flight, once.
  pub in_bounds :
      (cs : List Call) (local_addr : SocketAddr) (ring : io.Ring)
      → ((j : ℕ) → io.in_flight j ring ≡ 0)
      → reads.labels ring ≡ []
      → All IsSmall cs
      → Ends InBounds ReadPanic (calls io recv_queue cs (opened io n local_addr ring))
  in_bounds cs local_addr ring idle unused small =
      calls-InBounds cs (opened io n local_addr ring) small
        (opened-InBounds local_addr ring idle unused)
