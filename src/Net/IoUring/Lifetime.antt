-- ===== src/Net/IoUring/Lifetime.antt =====
-- The packets of the io_uring socket over any calls of the trait.
use tiny_media_server.Prelude.{
  ℕ, ◌+◌, ◌-◌, ◌/◌, ◌%◌, ◌^◌, ◌≤◌, ◌≡◌, refl, List, [], ◌∷◌, map, length, All, All-replicate,
  length-replicate, ltb, Outcome, ok, ◌>>=◌, Ends, Ends-bind, Ends-weaken, arith, Bool-cases,
  Option-cases, inl, inr, is_empty,
}
use tiny_media_server.Prelude.SocketAddr.{SocketAddr}
use tiny_media_server.Net.IoUring.{
  recv, provide_buffers, index, to_u32, into_u64, recv_buf_group_size,
}
use tiny_media_server.Net.IoUring.Ring.{NetPacket, IoUring, RingLaws, provide, recv_msg_multi}
use tiny_media_server.Net.IoUring.Socket.{
  UdpSocket2IoUring, range, whole_packet, opened, poll_completions, add_send_to, commit_send_to,
  recv_waiting, recv_from, provide_bufs, prepare_read, prepare_groups, prepare_write, prepare,
  finish_groups, finish_read_from,
}
use tiny_media_server.Net.IoUring.Slots.{
  count-range, IsWhole, Slots, SendPanic, poll_completions-Ends,
}
use tiny_media_server.Net.IoUring.Sending.{add_send_to-Slots}

-- A call of the trait that changes the socket.
pub data Call : Type 0 where
  prepare_call : Call
  add : List ℕ → SocketAddr → Call
  commit : Call
  receive : Call
  finish : Call

abbrev pub IsSmall : Call → Type 0
IsSmall (add buf dest) = length buf ≤ 1500
IsSmall _ = Unit

-- The call ends, in whatever panic, or with what satisfies `P`.
abbrev pub Returns {ℓ} : {A : Type ℓ} → (A → Type 0) → Outcome A → Type 0
Returns P = Ends P (λ _. Unit)

module _ (io : IoUring) (recv_queue : ℕ) where
  abbrev pub call : Call → UdpSocket2IoUring io → Outcome (UdpSocket2IoUring io)
  call prepare_call s = prepare io recv_queue s
  call (add buf dest) s = do r ← add_send_to io buf dest s; ok r.1
  call commit s = ok (commit_send_to io s).1
  call receive s = do r ← recv_from io recv_queue s; ok r.1
  call finish s = finish_read_from io recv_queue s

  abbrev pub calls : List Call → UdpSocket2IoUring io → Outcome (UdpSocket2IoUring io)
  calls [] s = ok s
  calls (c ∷ cs) s = do s' ← call c s; calls cs s'

module _ (io : IoUring) (laws : RingLaws io) (n : ℕ) (words : n ≤ 2 ^ 32) (recv_queue : ℕ) where
  pub opened-Slots :
      (local_addr : SocketAddr) (ring : io.Ring)
      → ((j : ℕ) → io.in_flight j ring ≡ 0)
      → Slots io n (opened io n local_addr ring)
  unfolding opened
  opened-Slots local_addr ring idle = record {
    conserved = λ j. ground (arith, count-range j 0 n, idle j);
    bufs = length-replicate n _;
    whole = All-replicate IsWhole n _ (length-replicate {A = ℕ} 1500 0);
  }

  pub commit_send_to-Slots :
      (s : UdpSocket2IoUring io) → Slots io n s → Slots io n (commit_send_to io s).1
  unfolding commit_send_to
  commit_send_to-Slots s h = elim (Bool-cases s.ring_queue_changed) [
    | inl e ↦ rw e (record {
      conserved = λ j. omega (arith, h.conserved j, laws.submit_in_flight s.send_bufs s.ring j);
      bufs = h.bufs;
      whole = h.whole;
    })
    | inr e ↦ rw e (record { conserved = h.conserved; bufs = h.bufs; whole = h.whole })
  ]

  recv_waiting-Slots :
      (s : UdpSocket2IoUring io) (waiting : List ℕ)
      → Slots io n s
      → Returns (λ r. Slots io n r.1) (recv_waiting io recv_queue s waiting)
  unfolding recv_waiting
  recv_waiting-Slots s [] h = h
  recv_waiting-Slots s (idx ∷ waiting) h = elim (Bool-cases (ltb idx recv_queue)) [
    | inr outside ↦ rw outside tt
    | inl inside ↦ elim (Option-cases (io.read_buf idx s.ring)) [
      | inl e ↦ rw (inside, e) tt
      | inr (d, e) ↦
          rw (inside, e) (record { conserved = h.conserved; bufs = h.bufs; whole = h.whole })
    ]
  ]

  pub recv_from-Slots :
      (s : UdpSocket2IoUring io)
      → Slots io n s
      → Returns (λ r. Slots io n r.1) (recv_from io recv_queue s)
  unfolding recv_from
  recv_from-Slots s h =
      Ends-bind (Slots io n) (λ r. Slots io n r.1) (λ _. Unit) (poll_completions io s) _
        (Ends-weaken (Slots io n) (Slots io n) SendPanic (λ _. Unit) (poll_completions io s)
          (poll_completions-Ends io laws n s h) (λ a p. p) (λ p q. tt))
        (λ s' _ k. recv_waiting-Slots s' s'.read_wait_queue k)

  -- The same packets in flight.
  abbrev SameFlight : io.Ring → io.Ring → Type 0
  SameFlight r r' = (j : ℕ) → io.in_flight j r' ≡ io.in_flight j r

  provide_bufs-Returns :
      (group : ℕ) (indices : List ℕ) (r : io.Ring)
      → Returns (SameFlight r) (provide_bufs io recv_queue group indices r)
  unfolding provide_bufs
  provide_bufs-Returns group [] r = λ j. refl
  provide_bufs-Returns group (idx ∷ indices) r =
      let entry = provide group (index idx) (into_u64 (provide_buffers idx)) in
      elim (Bool-cases (ltb idx recv_queue)) [
        | inr e ↦ rw e tt
        | inl e ↦ elim (Option-cases (io.push entry r)) [
          | inl full ↦ rw (e, full) tt
          | inr (r', pushed) ↦
              rw (e, pushed)
                (Ends-weaken (SameFlight r') (SameFlight r) (λ _. Unit) (λ _. Unit)
                  (provide_bufs io recv_queue group indices r')
                  (provide_bufs-Returns group indices r')
                  (λ r'' same j. omega (arith, same j, laws.push_in_flight entry r r' j tt pushed))
                  (λ p q. tt))
        ]
      ]

  prepare_read-Slots :
      (group : ℕ) (s : UdpSocket2IoUring io)
      → Slots io n s
      → Returns (Slots io n) (prepare_read io recv_queue group s)
  unfolding prepare_read
  prepare_read-Slots group s h =
      let begin_idx = to_u32 group 0 in
      let end_idx = to_u32 ((group + 1) % 2 ^ 16) 0 in
      let indices = range begin_idx (end_idx - begin_idx) in
      let entry = recv_msg_multi group (into_u64 (recv group)) in
      Ends-bind (SameFlight s.ring) (Slots io n) (λ _. Unit)
        (provide_bufs io recv_queue group indices s.ring) _
        (provide_bufs-Returns group indices s.ring)
        (λ r _ same. elim (Option-cases (io.push entry r)) [
          | inl full ↦ rw full tt
          | inr (r', pushed) ↦ elim (Bool-cases (io.submit s.send_bufs r').0) [
            | inr refused ↦ rw (pushed, refused) tt
            | inl submitted ↦
                rw (pushed, submitted)
                  (record {
                    conserved = λ j. omega (
                      arith,
                      h.conserved j,
                      same j,
                      laws.push_in_flight entry r r' j tt pushed,
                      laws.submit_in_flight s.send_bufs r' j,
                    );
                    bufs = h.bufs;
                    whole = h.whole;
                  })
          ]
        ])

  prepare_groups-Slots :
      (groups : List ℕ) (s : UdpSocket2IoUring io)
      → Slots io n s
      → Returns (Slots io n) (prepare_groups io recv_queue groups s)
  unfolding prepare_groups
  prepare_groups-Slots [] s h = h
  prepare_groups-Slots (group ∷ groups) s h =
      Ends-bind (Slots io n) (Slots io n) (λ _. Unit)
        (prepare_read io recv_queue (group % 2 ^ 16) s) (prepare_groups io recv_queue groups)
        (prepare_read-Slots (group % 2 ^ 16) s h) (λ s' _ k. prepare_groups-Slots groups s' k)

  map-IsWhole : (pkts : List NetPacket) → All IsWhole pkts → All IsWhole (map whole_packet pkts)
  map-IsWhole [] h = tt
  map-IsWhole (p ∷ pkts) h = (h.0, map-IsWhole pkts h.1)

  length-whole_packets : (pkts : List NetPacket) → length (map whole_packet pkts) ≡ length pkts
  length-whole_packets [] = refl
  length-whole_packets (p ∷ pkts) = omega (arith, length-whole_packets pkts)

  prepare-Slots :
      (s : UdpSocket2IoUring io) → Slots io n s → Returns (Slots io n) (prepare io recv_queue s)
  unfolding prepare
  prepare-Slots s h =
      prepare_groups-Slots (range 0 (recv_queue / recv_buf_group_size)) (prepare_write io s)
        (record {
          conserved = h.conserved;
          bufs = omega (arith, length-whole_packets s.send_bufs, h.bufs);
          whole = map-IsWhole s.send_bufs h.whole;
        })

  finish_groups-Slots :
      (s : UdpSocket2IoUring io) (groups : List ℕ)
      → Slots io n s
      → Returns (Slots io n) (finish_groups io recv_queue s groups)
  unfolding finish_groups
  finish_groups-Slots s [] h = h
  finish_groups-Slots s (group ∷ groups) h =
      prepare_read-Slots group (record s { read_wait_free_groups = groups })
        (record { conserved = h.conserved; bufs = h.bufs; whole = h.whole })

  finish_read_from-Slots :
      (s : UdpSocket2IoUring io)
      → Slots io n s
      → Returns (Slots io n) (finish_read_from io recv_queue s)
  unfolding finish_read_from
  finish_read_from-Slots s h = elim (Bool-cases (is_empty s.read_wait_queue)) [
    | inl e ↦ rw e (finish_groups-Slots s s.read_wait_free_groups h)
    | inr e ↦ rw e h
  ]

  pub call-Slots :
      (c : Call) (s : UdpSocket2IoUring io)
      → IsSmall c
      → Slots io n s
      → Returns (Slots io n) (call io recv_queue c s)
  call-Slots prepare_call s small h = prepare-Slots s h
  call-Slots (add buf dest) s small h =
      Ends-bind (λ r. Slots io n r.1) (Slots io n) (λ _. Unit) (add_send_to io buf dest s)
        (λ r. ok r.1)
        (Ends-weaken (λ r. Slots io n r.1) (λ r. Slots io n r.1) SendPanic (λ _. Unit)
          (add_send_to io buf dest s) (add_send_to-Slots io laws n words buf dest s small h)
          (λ r k. k) (λ p q. tt))
        (λ r _ k. k)
  call-Slots commit s small h = commit_send_to-Slots s h
  call-Slots receive s small h =
      Ends-bind (λ r. Slots io n r.1) (Slots io n) (λ _. Unit) (recv_from io recv_queue s)
        (λ r. ok r.1) (recv_from-Slots s h) (λ r _ k. k)
  call-Slots finish s small h = finish_read_from-Slots s h

  calls-Slots :
      (cs : List Call) (s : UdpSocket2IoUring io)
      → All IsSmall cs
      → Slots io n s
      → Returns (Slots io n) (calls io recv_queue cs s)
  calls-Slots [] s small h = h
  calls-Slots (c ∷ cs) s small h =
      Ends-bind (Slots io n) (Slots io n) (λ _. Unit) (call io recv_queue c s)
        (calls io recv_queue cs) (call-Slots c s small.0 h) (λ s' _ k. calls-Slots cs s' small.1 k)

  -- Over a ring whose completions carry the user data of their entries, and with at most 2^32
  -- packets, any calls of the trait on a new io_uring socket, with datagrams of at most 1500
  -- bytes, come to an end, in a panic or in a state in which each packet is either on the free
  -- queue, once, or in flight, once.
  pub lifetime :
      (cs : List Call) (local_addr : SocketAddr) (ring : io.Ring)
      → ((j : ℕ) → io.in_flight j ring ≡ 0)
      → All IsSmall cs
      → Returns (Slots io n) (calls io recv_queue cs (opened io n local_addr ring))
  lifetime cs local_addr ring idle small =
      calls-Slots cs (opened io n local_addr ring) small (opened-Slots local_addr ring idle)
