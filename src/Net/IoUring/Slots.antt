-- ===== src/Net/IoUring/Slots.antt =====
-- The packets of the send queue: each one is free or in flight, never both.
use tiny_media_server.Prelude.{
  count, count-append, one_if, ℕ, zero, suc, ◌+◌, ◌-◌, ◌<◌, ◌≡◌, refl, [], ◌∷◌, length, All, ltb,
  leb, Halt, ring_full, no_buffer_id, unparsed_packet, Ends, Ends-bind, arith, Bool-cases,
  Option-cases, inl, inr,
}
use tiny_media_server.Net.IoUring.{UserData, send, recv, provide_buffers, from_u64}
use tiny_media_server.Net.IoUring.Ring.{NetPacket, IoUring, RingLaws, ends_send}
use tiny_media_server.Net.IoUring.Socket.{
  UdpSocket2IoUring, range, on_completion, poll_loop, poll_completions,
}

pub count-range :
    (j from n : ℕ) → count j (range from n) ≡ one_if (leb from j) - one_if (leb (from + n) j)
count-range j from zero = ground arith
count-range j from (suc n) = ground (arith, count-range j (from + 1) n)

abbrev pub IsWhole : NetPacket → Type 0
IsWhole pkt = length pkt.buf ≡ 1500

-- Each of the `n` packets is either free, once, or in flight, once.
pub record Slots (io : IoUring) (n : ℕ) (s : UdpSocket2IoUring io) : Type 0 where
  pub conserved : (j : ℕ) → count j s.send_free_queue + io.in_flight j s.ring ≡ one_if (ltb j n)
  pub bufs : length s.send_bufs ≡ n
  pub whole : All IsWhole s.send_bufs

-- The panics that a call of the sending half may end in.
abbrev pub SendPanic : Halt → Type 0
SendPanic ring_full = Unit
SendPanic no_buffer_id = Unit
SendPanic unparsed_packet = Unit
SendPanic _ = ⊥

module _ (io : IoUring) (laws : RingLaws io) (n : ℕ) where
  on_completion-Ends :
      (d : UserData) (f : io.Flags) (s : UdpSocket2IoUring io)
      → ((j : ℕ)
          → count j s.send_free_queue + (ends_send d (io.more f) j + io.in_flight j s.ring)
            ≡ one_if (ltb j n))
      → length s.send_bufs ≡ n
      → All IsWhole s.send_bufs
      → Ends (λ x. (x.ring ≡ s.ring) × Slots io n x) SendPanic (on_completion io d f s)
  unfolding on_completion
  on_completion-Ends (recv group) f s c b w =
      let kept : (j : ℕ) → count j s.send_free_queue + io.in_flight j s.ring ≡ one_if (ltb j n) =
        λ j. omega (arith, c j) in
      elim (Bool-cases (io.more f)) [
        | inl e ↦ elim (Option-cases (io.buffer_select f)) [
          | inl none_selected ↦ rw (e, none_selected) tt
          | inr (idx, selected) ↦
              rw (e, selected) (refl, record { conserved = kept; bufs = b; whole = w })
        ]
        | inr e ↦ rw e (refl, record { conserved = kept; bufs = b; whole = w })
      ]
  on_completion-Ends (send idx) f s c b w = elim (Bool-cases (io.more f)) [
    | inl e ↦
        rw e (refl, record { conserved = λ j. omega (arith, rw e at (c j)); bufs = b; whole = w })
    | inr e ↦ rw e (
      refl,
      record {
        conserved = λ j. omega (arith, rw e at (c j), count-append j s.send_free_queue (idx ∷ []));
        bufs = b;
        whole = w;
      },
    )
  ]
  on_completion-Ends (provide_buffers idx) f s c b w =
      (refl, record { conserved = λ j. omega (arith, c j); bufs = b; whole = w })

  poll_loop-Ends :
      (fuel : ℕ) (s : UdpSocket2IoUring io)
      → io.completed s.ring < fuel
      → Slots io n s
      → Ends (Slots io n) SendPanic (poll_loop io fuel s)
  unfolding poll_loop
  poll_loop-Ends zero s lt h = absurd (omega (arith, lt))
  poll_loop-Ends (suc fuel) s lt h = elim (Option-cases (io.next_completion s.ring).0) [
    | inl e ↦
        rw (e, poll_loop, Ends)
          (record {
            conserved = λ j. omega (arith, h.conserved j, laws.next_idle s.ring j e);
            bufs = h.bufs;
            whole = h.whole;
          })
    | inr ((u, f), e) ↦
        let r = (io.next_completion s.ring).1 in
        let less : io.completed r < io.completed s.ring = rw e at (laws.next-Uses s.ring) in
        let s' : UdpSocket2IoUring io = record s { ring = r } in
        rw (e, poll_loop, Ends)
          (Ends-bind (λ x. (x.ring ≡ r) × Slots io n x) (Slots io n) SendPanic
            (on_completion io (from_u64 u) f s') (poll_loop io fuel)
            (on_completion-Ends (from_u64 u) f s'
              (λ j. omega (arith, h.conserved j, laws.next_in_flight s.ring u f j e)) h.bufs
              h.whole)
            (λ x _ (same, k). poll_loop-Ends fuel x (rw same (omega (arith, less, lt))) k))
  ]

  pub poll_completions-Ends :
      (s : UdpSocket2IoUring io)
      → Slots io n s
      → Ends (Slots io n) SendPanic (poll_completions io s)
  unfolding poll_completions
  poll_completions-Ends s h = poll_loop-Ends (suc (io.completed s.ring)) s (omega arith) h
