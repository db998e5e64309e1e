-- ===== src/Net/IoUring/Sending.antt =====
-- `add_send_to` of the io_uring socket: a packet that is in flight is never written.
use tiny_media_server.Prelude.{
  ℕ, zero, suc, ◌^◌, ◌≤◌, ◌<◌, ◌≡◌, ◌≢◌, refl, List, [], ◌∷◌, ◌++◌, length, drop, get_elem?, All,
  ok, Ends, Ends-bind, Ends-weaken, ap, arith, Option-cases, inl, inr, length-append, length-drop,
}
use tiny_media_server.Prelude.SocketAddr.{SocketAddr}
use tiny_media_server.Net.Mmsg.{update_at}
use tiny_media_server.Net.Mmsg.Queue.{leb-true}
use tiny_media_server.Net.IoUring.{send, into_u64, from_u64-into_u64}
use tiny_media_server.Net.IoUring.Ring.{NetPacket, IoUring, RingLaws, send_msg_zc}
use tiny_media_server.Net.IoUring.Socket.{
  UdpSocket2IoUring, fill_packet, poll_completions, send_packet, add_to_free, add_send_to,
}
use tiny_media_server.Net.IoUring.Slots.{IsWhole, Slots, SendPanic, poll_completions-Ends}

-- Packet `i` is written, and no other.
record Written (i : ℕ) (buf : List ℕ) (dest : SocketAddr) (pkts : List NetPacket) : Type 0 where
  next : List NetPacket
  updated : update_at i (fill_packet buf dest) pkts ≡ ok next
  same_length : length next ≡ length pkts
  whole : All IsWhole next
  others : (j : ℕ) → j ≢ i → get_elem? next j ≡ get_elem? pkts j

get_elem?-head :
    (p q : NetPacket) (pkts : List NetPacket) (j : ℕ)
    → j ≢ 0
    → get_elem? (p ∷ pkts) j ≡ get_elem? (q ∷ pkts) j
get_elem?-head p q pkts zero ne = absurd (ne refl)
get_elem?-head p q pkts (suc j) ne = refl

get_elem?-tail :
    (p : NetPacket) (i : ℕ) (xs ys : List NetPacket)
    → ((j : ℕ) → j ≢ i → get_elem? xs j ≡ get_elem? ys j)
    → (j : ℕ) → j ≢ suc i
    → get_elem? (p ∷ xs) j ≡ get_elem? (p ∷ ys) j
get_elem?-tail p i xs ys same zero ne = refl
get_elem?-tail p i xs ys same (suc j) ne = same j (λ e. ne (ap suc e))

update_at-Written :
    (i : ℕ) (buf : List ℕ) (dest : SocketAddr) (pkts : List NetPacket)
    → i < length pkts
    → length buf ≤ 1500
    → All IsWhole pkts
    → Written i buf dest pkts
unfolding update_at fill_packet
update_at-Written i buf dest [] lt small w = absurd (omega (arith, lt))
update_at-Written zero buf dest (p ∷ pkts) lt small w =
    let room = leb-true (length buf) (length p.buf) (omega (arith, w.0, small)) in
    record {
      next =
          record { buf = buf ++ drop (length buf) p.buf; addr = dest; iov_len = length buf } ∷ pkts;
      updated = rw room;
      same_length = refl;
      whole = (
        omega (
          arith,
          w.0,
          small,
          length-append buf (drop (length buf) p.buf),
          length-drop (length buf) p.buf,
        ),
        w.1,
      );
      others = get_elem?-head _ p pkts;
    }
update_at-Written (suc i) buf dest (p ∷ pkts) lt small w =
    let r = update_at-Written i buf dest pkts (omega (arith, lt)) small w.1 in
    record {
      next = p ∷ r.next;
      updated = rw r.updated;
      same_length = omega (arith, r.same_length);
      whole = (w.0, r.whole);
      others = get_elem?-tail p i r.next pkts r.others;
    }

module _ (io : IoUring) (laws : RingLaws io) (n : ℕ) (words : n ≤ 2 ^ 32) where
  -- The packets that are in flight are what they were, and every packet still has its place.
  record Kept (s s' : UdpSocket2IoUring io) : Type 0 where
    slots : Slots io n s'
    untouched :
        (j : ℕ) → 0 < io.in_flight j s.ring → get_elem? s'.send_bufs j ≡ get_elem? s.send_bufs j

  add_to_free-Kept :
      (buf : List ℕ) (dest : SocketAddr) (s : UdpSocket2IoUring io) (free : List ℕ)
      → length buf ≤ 1500
      → Slots io n s
      → s.send_free_queue ≡ free
      → Ends (λ r. Kept s r.1) SendPanic (add_to_free io buf dest s free)
  unfolding add_to_free send_packet
  add_to_free-Kept buf dest s [] small h e = record { slots = h; untouched = λ j busy. refl }
  add_to_free-Kept buf dest s (i ∷ free) small h e =
      let bound : i < n = ground (arith, rw e at (h.conserved i)) in
      let r =
        update_at-Written i buf dest s.send_bufs (omega (arith, bound, h.bufs)) small h.whole in
      let entry = send_msg_zc i (into_u64 (send i)) in
      elim (Option-cases (io.push entry s.ring)) [
        | inl refused ↦ rw (r.updated, refused) tt
        | inr (ring, pushed) ↦
            rw (r.updated, pushed)
              (record {
                slots = record {
                  conserved = λ j. omega (
                    arith,
                    rw e at (h.conserved j),
                    laws.push_in_flight entry s.ring ring j
                        (from_u64-into_u64 (send i) (omega (arith, bound, words))) pushed,
                  );
                  bufs = omega (arith, r.same_length, h.bufs);
                  whole = r.whole;
                };
                untouched = λ j busy.
                    r.others j (λ same. ground (arith, rw e at (h.conserved j), same, busy));
              })
      ]

  -- From a state in which each packet is free or in flight, once, and with a datagram of at most
  -- 1500 bytes, the part of add_send_to that follows poll_completions ends in such a state, with
  -- each packet that was in flight as it was, or in one of the panics of SendPanic.
  pub add_to_free_lem :
      (buf : List ℕ) (dest : SocketAddr) (s : UdpSocket2IoUring io) (j : ℕ)
      → length buf ≤ 1500
      → Slots io n s
      → 0 < io.in_flight j s.ring
      → Ends
          (λ r. Slots io n r.1 × (get_elem? r.1.send_bufs j ≡ get_elem? s.send_bufs j))
          SendPanic
          (add_to_free io buf dest s s.send_free_queue)
  add_to_free_lem buf dest s j small h busy =
      Ends-weaken (λ r. Kept s r.1)
        (λ r. Slots io n r.1 × (get_elem? r.1.send_bufs j ≡ get_elem? s.send_bufs j)) SendPanic
        SendPanic (add_to_free io buf dest s s.send_free_queue)
        (add_to_free-Kept buf dest s s.send_free_queue small h refl)
        (λ r k. (k.slots, k.untouched j busy)) (λ p q. q)

  pub add_send_to-Slots :
      (buf : List ℕ) (dest : SocketAddr) (s : UdpSocket2IoUring io)
      → length buf ≤ 1500
      → Slots io n s
      → Ends (λ r. Slots io n r.1) SendPanic (add_send_to io buf dest s)
  unfolding add_send_to
  add_send_to-Slots buf dest s small h =
      Ends-bind (Slots io n) (λ r. Slots io n r.1) SendPanic (poll_completions io s) _
        (poll_completions-Ends io laws n s h)
        (λ s' _ k.
          Ends-weaken (λ r. Kept s' r.1) (λ r. Slots io n r.1) SendPanic SendPanic
            (add_to_free io buf dest s' s'.send_free_queue)
            (add_to_free-Kept buf dest s' s'.send_free_queue small k refl) (λ r kept. kept.slots)
            (λ p q. q))
