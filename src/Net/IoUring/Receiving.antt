-- ===== src/Net/IoUring/Receiving.antt =====
-- The receive buffers of the io_uring socket, in src/net/socket2_io_uring.rs: which groups and
-- which buffers its queues name.
pub mod Groups
pub mod Handed
use native.Mathlib.Nat.{mod-lt, mod-le}
use tiny_media_server.Prelude.{
  ℕ, zero, suc, ◌+◌, ◌-◌, ◌*◌, ◌/◌, ◌%◌, ◌^◌, ◌≤◌, ◌<◌, ◌≡◌, refl, sym, List, [], ◌∷◌, ◌++◌, map,
  All, All-append, Bool, Option, none, some, Outcome, ok, ltb, leb, is_empty, Halt, ring_full,
  no_buffer_id, unparsed_packet, refused_submit, Ends, Ends-bind, Ends-weaken, arith, Bool-cases,
  Option-cases, inl, inr, true,
}
use tiny_media_server.Net.IoUring.{
  UserData, send, recv, provide_buffers, index, to_u32, into_u64, from_u64, from_u64-into_u64,
  recv_buf_group_size,
}
use tiny_media_server.Net.IoUring.Ring.{
  NetPacket, IoUring, RingLaws, Entry, send_msg_zc, provide, recv_msg_multi,
}
use tiny_media_server.Net.IoUring.Socket.{
  UdpSocket2IoUring, range, whole_packet, on_completion, poll_loop, poll_completions, recv_waiting,
  recv_from, provide_bufs, prepare_read, prepare_groups, prepare_write, prepare, finish_groups,
  finish_read_from, commit_send_to,
}

abbrev pub label : Entry → ℕ
label (send_msg_zc i u) = u
label (provide g i u) = u
label (recv_msg_multi g u) = u

-- `labels` lists the user data of the entries so far. A completion carries that of an entry, and
-- the buffer that the kernel selects is one of those provided to the group.
pub record ReadLaws (io : IoUring) : Type 1 where
  pub labels : io.Ring → List ℕ
  pub push_labels :
      (e : Entry) (r r' : io.Ring) → io.push e r ≡ some r' → labels r' ≡ labels r ++ label e ∷ []
  pub submit_labels : (bufs : List NetPacket) (r : io.Ring) → labels (io.submit bufs r).1 ≡ labels r
  pub next_labels : (r : io.Ring) → labels (io.next_completion r).1 ≡ labels r
  pub next_label :
      (r : io.Ring) (u : ℕ) (f : io.Flags)
      → (io.next_completion r).0 ≡ some (u, f)
      → (P : ℕ → Type 0) → All P (labels r)
      → P u
  pub selected :
      (r : io.Ring) (u : ℕ) (f : io.Flags) (group idx : ℕ)
      → (io.next_completion r).0 ≡ some (u, f)
      → from_u64 u ≡ recv group
      → io.buffer_select f ≡ some idx
      → idx < recv_buf_group_size

-- The panics that a call of the receiving half may end in.
abbrev pub ReadPanic : Halt → Type 0
ReadPanic ring_full = Unit
ReadPanic no_buffer_id = Unit
ReadPanic unparsed_packet = Unit
ReadPanic refused_submit = Unit
ReadPanic _ = ⊥

module _ (io : IoUring) (laws : RingLaws io) (reads : ReadLaws io) (recv_queue : ℕ) where
  -- A group that the receive buffers have room for, and that a u16 can name.
  abbrev pub IsGroup : ℕ → Type 0
  IsGroup group = (group < recv_queue / recv_buf_group_size) × (group < 2 ^ 16)

  abbrev pub IsRead : UserData → Type 0
  IsRead (recv group) = IsGroup group
  IsRead _ = Unit

  pub record Reads (s : UdpSocket2IoUring io) : Type 0 where
    pub labelled : All (λ u. IsRead (from_u64 u)) (reads.labels s.ring)
    pub waiting : All (λ idx. idx < recv_queue) s.read_wait_queue
    pub groups : All IsGroup s.read_wait_free_groups

  on_completion-Reads :
      (d : UserData) (f : io.Flags) (s : UdpSocket2IoUring io)
      → IsRead d
      → ((group idx : ℕ)
          → d ≡ recv group
          → io.buffer_select f ≡ some idx
          → idx < recv_buf_group_size)
      → Reads s
      → Ends (λ x. (x.ring ≡ s.ring) × Reads x) ReadPanic (on_completion io d f s)
  unfolding on_completion to_u32
  on_completion-Reads (recv group) f s armed below h = elim (Bool-cases (io.more f)) [
    | inl e ↦ elim (Option-cases (io.buffer_select f)) [
      | inl unselected ↦ rw (e, unselected) tt
      | inr (idx, selected) ↦
          let room = below group idx refl selected in
          rw (e, selected)
            (
              refl,
              record {
                labelled = h.labelled;
                waiting =
                    All-append _ s.read_wait_queue _ h.waiting (omega (arith, room, armed.0), tt);
                groups = h.groups;
              },
            )
    ]
    | inr e ↦ rw e (
      refl,
      record {
        labelled = h.labelled;
        waiting = h.waiting;
        groups = All-append _ s.read_wait_free_groups _ h.groups (armed, tt);
      },
    )
  ]
  on_completion-Reads (send idx) f s armed below h = elim (Bool-cases (io.more f)) [
    | inl e ↦ rw e (refl, h)
    | inr e ↦ rw e (refl, record { labelled = h.labelled; waiting = h.waiting; groups = h.groups })
  ]
  on_completion-Reads (provide_buffers idx) f s armed below h = (refl, h)

  poll_loop-Reads :
      (fuel : ℕ) (s : UdpSocket2IoUring io)
      → io.completed s.ring < fuel
      → Reads s
      → Ends Reads ReadPanic (poll_loop io fuel s)
  unfolding poll_loop
  poll_loop-Reads zero s lt h = absurd (omega (arith, lt))
  poll_loop-Reads (suc fuel) s lt h =
      let r = (io.next_completion s.ring).1 in
      let next : UdpSocket2IoUring io = record s { ring = r } in
      let k : Reads next = record {
        labelled = rw (reads.next_labels s.ring) h.labelled;
        waiting = h.waiting;
        groups = h.groups;
      } in
      elim (Option-cases (io.next_completion s.ring).0) [
        | inl e ↦ rw (e, poll_loop, Ends) k
        | inr ((u, f), e) ↦
            let less : io.completed r < io.completed s.ring = rw e at (laws.next-Uses s.ring) in
            rw (e, poll_loop, Ends)
              (Ends-bind (λ x. (x.ring ≡ r) × Reads x) Reads ReadPanic
                (on_completion io (from_u64 u) f next) (poll_loop io fuel)
                (on_completion-Reads (from_u64 u) f next
                  (reads.next_label s.ring u f e (λ u. IsRead (from_u64 u)) h.labelled)
                  (λ group idx d sel. reads.selected s.ring u f group idx e d sel) k)
                (λ x _ (same, kept).
                  poll_loop-Reads fuel x (rw same (omega (arith, less, lt))) kept))
      ]

  pub poll_completions-Reads :
      (s : UdpSocket2IoUring io) → Reads s → Ends Reads ReadPanic (poll_completions io s)
  unfolding poll_completions
  poll_completions-Reads s h = poll_loop-Reads (suc (io.completed s.ring)) s (omega arith) h

  recv_waiting-Reads :
      (s : UdpSocket2IoUring io) (waiting : List ℕ)
      → Reads s
      → All (λ idx. idx < recv_queue) waiting
      → Ends (λ r. Reads r.1) ReadPanic (recv_waiting io recv_queue s waiting)
  unfolding recv_waiting
  recv_waiting-Reads s [] h w = h
  recv_waiting-Reads s (idx ∷ waiting) h w =
      let inside : ltb idx recv_queue ≡ true = ground (arith, w.0) in
      elim (Option-cases (io.read_buf idx s.ring)) [
        | inl e ↦ rw (inside, e) tt
        | inr (d, e) ↦
            rw (inside, e) (record { labelled = h.labelled; waiting = w.1; groups = h.groups })
      ]

  pub recv_from-Reads :
      (s : UdpSocket2IoUring io)
      → Reads s
      → Ends (λ r. Reads r.1) ReadPanic (recv_from io recv_queue s)
  unfolding recv_from
  recv_from-Reads s h =
      Ends-bind Reads (λ r. Reads r.1) ReadPanic (poll_completions io s) _
        (poll_completions-Reads s h) λ s' _ k. recv_waiting-Reads s' s'.read_wait_queue k k.waiting

  -- The labels of a ring.
  abbrev pub Labelled : io.Ring → Type 0
  Labelled r = All (λ u. IsRead (from_u64 u)) (reads.labels r)

  pub push-Labelled :
      (e : Entry) (r r' : io.Ring)
      → IsRead (from_u64 (label e))
      → io.push e r ≡ some r'
      → Labelled r
      → Labelled r'
  push-Labelled e r r' armed pushed h =
      rw (reads.push_labels e r r' pushed) (All-append _ (reads.labels r) _ h (armed, tt))
