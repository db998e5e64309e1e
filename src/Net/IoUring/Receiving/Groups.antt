-- ===== src/Net/IoUring/Receiving/Groups.antt =====
-- How the groups of receive buffers are handed to the kernel.
use tiny_media_server.Prelude.{
  ℕ, zero, suc, ◌+◌, ◌-◌, ◌/◌, ◌%◌, ◌^◌, ◌<◌, ◌≡◌, List, [], ◌∷◌, All, ltb, is_empty, Ends,
  Ends-bind, arith, Bool-cases, Option-cases, inl, inr, true,
}
use tiny_media_server.Net.IoUring.{
  recv, provide_buffers, index, to_u32, into_u64, from_u64-into_u64, recv_buf_group_size,
}
use tiny_media_server.Net.IoUring.Ring.{IoUring, RingLaws, provide, recv_msg_multi}
use tiny_media_server.Net.IoUring.Socket.{
  UdpSocket2IoUring, range, provide_bufs, prepare_read, prepare_groups, prepare_write, prepare,
  finish_groups, finish_read_from, commit_send_to,
}
use tiny_media_server.Net.IoUring.Receiving.{
  ReadLaws, ReadPanic, IsGroup, Reads, Labelled, push-Labelled,
}

All-range : (P : ℕ → Type 0) (from n : ℕ) → ((i : ℕ) → i < from + n → P i) → All P (range from n)
All-range P from zero h = tt
All-range P from (suc n) h =
    (h from (omega arith), All-range P (from + 1) n (λ i lt. h i (omega (arith, lt))))

module _ (io : IoUring) (laws : RingLaws io) (reads : ReadLaws io) (recv_queue : ℕ) where
  provide_bufs-Labelled :
      (group : ℕ) (indices : List ℕ) (r : io.Ring)
      → All (λ idx. (idx < recv_queue) × (idx < 2 ^ 32)) indices
      → Labelled io laws reads recv_queue r
      → Ends
          (Labelled io laws reads recv_queue)
          ReadPanic
          (provide_bufs io recv_queue group indices r)
  unfolding provide_bufs
  provide_bufs-Labelled group [] r below h = h
  provide_bufs-Labelled group (idx ∷ indices) r below h =
      let entry = provide group (index idx) (into_u64 (provide_buffers idx)) in
      let inside : ltb idx recv_queue ≡ true = ground (arith, below.0.0) in
      elim (Option-cases (io.push entry r)) [
        | inl full ↦ rw (inside, full) tt
        | inr (r', pushed) ↦
            rw (inside, pushed)
              (provide_bufs-Labelled group indices r' below.1 (
                push-Labelled io laws reads recv_queue entry r r'
                  (rw (from_u64-into_u64 (provide_buffers idx) below.0.1) tt) pushed h))
      ]

  group-below :
      (group : ℕ)
      → IsGroup io laws reads recv_queue group
      → All
          (λ idx. (idx < recv_queue) × (idx < 2 ^ 32))
          (range (to_u32 group 0) (to_u32 ((group + 1) % 2 ^ 16) 0 - to_u32 group 0))
  unfolding to_u32
  group-below group (room, u16) =
      All-range _ (to_u32 group 0) _ λ i lt. (omega (arith, lt, room, u16), omega (arith, lt, u16))

  prepare_read-Reads :
      (group : ℕ) (s : UdpSocket2IoUring io)
      → IsGroup io laws reads recv_queue group
      → Reads io laws reads recv_queue s
      → Ends (Reads io laws reads recv_queue) ReadPanic (prepare_read io recv_queue group s)
  unfolding prepare_read
  prepare_read-Reads group s g h =
      let indices = range (to_u32 group 0) (to_u32 ((group + 1) % 2 ^ 16) 0 - to_u32 group 0) in
      let entry = recv_msg_multi group (into_u64 (recv group)) in
      Ends-bind (Labelled io laws reads recv_queue) (Reads io laws reads recv_queue) ReadPanic
        (provide_bufs io recv_queue group indices s.ring) _
        (provide_bufs-Labelled group indices s.ring (group-below group g) h.labelled)
        (λ r _ k. elim (Option-cases (io.push entry r)) [
          | inl full ↦ rw full tt
          | inr (r', pushed) ↦ elim (Bool-cases (io.submit s.send_bufs r').0) [
            | inr refused ↦ rw (pushed, refused) tt
            | inl submitted ↦
                rw (pushed, submitted)
                  (record {
                    labelled = rw (reads.submit_labels s.send_bufs r') (
                        push-Labelled io laws reads recv_queue entry r r'
                          (rw (from_u64-into_u64 (recv group) g.1) g) pushed k);
                    waiting = h.waiting;
                    groups = h.groups;
                  })
          ]
        ])

  prepare_groups-Reads :
      (groups : List ℕ) (s : UdpSocket2IoUring io)
      → All (λ group. group < recv_queue / recv_buf_group_size) groups
      → Reads io laws reads recv_queue s
      → Ends (Reads io laws reads recv_queue) ReadPanic (prepare_groups io recv_queue groups s)
  unfolding prepare_groups
  prepare_groups-Reads [] s below h = h
  prepare_groups-Reads (group ∷ groups) s below h =
      Ends-bind (Reads io laws reads recv_queue) (Reads io laws reads recv_queue) ReadPanic
        (prepare_read io recv_queue (group % 2 ^ 16) s) (prepare_groups io recv_queue groups)
        (prepare_read-Reads (group % 2 ^ 16) s (omega (arith, below.0), omega arith) h)
        (λ s' _ k. prepare_groups-Reads groups s' below.1 k)

  pub prepare-Reads :
      (s : UdpSocket2IoUring io)
      → Reads io laws reads recv_queue s
      → Ends (Reads io laws reads recv_queue) ReadPanic (prepare io recv_queue s)
  unfolding prepare
  prepare-Reads s h =
      prepare_groups-Reads (range 0 (recv_queue / recv_buf_group_size)) (prepare_write io s)
        (All-range _ 0 (recv_queue / recv_buf_group_size) λ i lt. omega (arith, lt))
        (record { labelled = h.labelled; waiting = h.waiting; groups = h.groups })

  finish_groups-Reads :
      (s : UdpSocket2IoUring io) (groups : List ℕ)
      → All (IsGroup io laws reads recv_queue) groups
      → Reads io laws reads recv_queue s
      → Ends (Reads io laws reads recv_queue) ReadPanic (finish_groups io recv_queue s groups)
  unfolding finish_groups
  finish_groups-Reads s [] below h = h
  finish_groups-Reads s (group ∷ groups) below h =
      prepare_read-Reads group (record s { read_wait_free_groups = groups }) below.0
        (record { labelled = h.labelled; waiting = h.waiting; groups = below.1 })

  pub finish_read_from-Reads :
      (s : UdpSocket2IoUring io)
      → Reads io laws reads recv_queue s
      → Ends (Reads io laws reads recv_queue) ReadPanic (finish_read_from io recv_queue s)
  unfolding finish_read_from
  finish_read_from-Reads s h = elim (Bool-cases (is_empty s.read_wait_queue)) [
    | inl e ↦ rw e (finish_groups-Reads s s.read_wait_free_groups h.groups h)
    | inr e ↦ rw e h
  ]

  pub commit_send_to-Reads :
      (s : UdpSocket2IoUring io)
      → Reads io laws reads recv_queue s
      → Reads io laws reads recv_queue (commit_send_to io s).1
  unfolding commit_send_to
  commit_send_to-Reads s h = elim (Bool-cases s.ring_queue_changed) [
    | inl e ↦ rw e (record {
      labelled = rw (reads.submit_labels s.send_bufs s.ring) h.labelled;
      waiting = h.waiting;
      groups = h.groups;
    })
    | inr e ↦ rw e (record { labelled = h.labelled; waiting = h.waiting; groups = h.groups })
  ]
