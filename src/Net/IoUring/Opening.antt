-- ===== src/Net/IoUring/Opening.antt =====
-- How the io_uring socket of src/net/socket2_io_uring.rs is opened.
use tiny_media_server.Prelude.{
  ℕ, ◌+◌, ◌%◌, ◌^◌, ◌≤◌, ◌≡◌, List, [], ◌∷◌, Bool, Option, some, nat_beq, if◌then◌else◌, Outcome,
  ok, halt, ◌>>=◌, uneven_groups, no_ring, unsupported_opcode, no_local_addr, no_socket_addr, Ends,
  Ends-bind, Bool-cases, inl, inr, arith, true, refl,
}
use tiny_media_server.Prelude.SocketAddr.{SocketAddr}
use tiny_media_server.Tasks.Session.{expect}
use tiny_media_server.Tasks.Session.Laws.{expect-Ends, expect-eq_ok}
use tiny_media_server.Net.Opening.{Socket2, udp, open_socket, OpenPanic, open_socket-Ends}
use tiny_media_server.Net.IoUring.{recv_buf_group_size}
use tiny_media_server.Net.IoUring.Ring.{IoUring, RingLaws}
use tiny_media_server.Net.IoUring.Socket.{UdpSocket2IoUring, opened}
use tiny_media_server.Net.IoUring.Receiving.{ReadLaws}
use tiny_media_server.Net.IoUring.Bounds.{InBounds, opened-InBounds}

-- The operations that the kernel has to support.
pub data Opcode : Type 0 where
  recv_msg_multi : Opcode
  provide_buffers : Opcode
  send_msg_zc : Opcode
  send_msg : Opcode

abbrev pub required : List Opcode
required = recv_msg_multi ∷ provide_buffers ∷ send_msg_zc ∷ send_msg ∷ []

-- The crate io_uring, a parameter: a ring of a size, and what its probe, registered with the ring,
-- answers.
pub record Rings (io : IoUring) : Type 0 where
  pub create : ℕ → Option io.Ring
  pub is_supported : Opcode → io.Ring → Bool

-- Nothing has been pushed to a new ring.
pub record FreshLaws (io : IoUring) (reads : ReadLaws io) (rings : Rings io) : Type 0 where
  pub idle :
      (size : ℕ) (ring : io.Ring)
      → rings.create size ≡ some ring
      → (j : ℕ) → io.in_flight j ring ≡ 0
  pub unused : (size : ℕ) (ring : io.Ring) → rings.create size ≡ some ring → reads.labels ring ≡ []

module _ (io : IoUring) (rings : Rings io) (s2 : Socket2) where
  unfoldable pub assert_supported : List Opcode → io.Ring → Outcome io.Ring
  assert_supported [] ring = ok ring
  assert_supported (code ∷ codes) ring =
      if rings.is_supported code ring then assert_supported codes ring else halt unsupported_opcode

  -- The rest of `new`, after its first assert_eq.
  unfoldable pub open_ring : ℕ → ℕ → Option (List SocketAddr) → Outcome (UdpSocket2IoUring io)
  unfolding open_socket assert_supported opened
  open_ring send_queue recv_queue ip_addr = do
    socket ← open_socket s2 (some udp) ip_addr
    created ← expect no_ring (rings.create ((send_queue + recv_queue) % 2 ^ 32))
    ring ← assert_supported required created
    bound ← expect no_local_addr (s2.local_addr socket)
    local_addr ← expect no_socket_addr bound
    ok (opened io send_queue local_addr ring)

  unfoldable pub new : ℕ → ℕ → Option (List SocketAddr) → Outcome (UdpSocket2IoUring io)
  unfolding open_ring
  new send_queue recv_queue ip_addr =
      if nat_beq (recv_queue % recv_buf_group_size) 0
      then open_ring send_queue recv_queue ip_addr
      else halt uneven_groups

  assert_supported-Ends :
      (codes : List Opcode) (ring : io.Ring)
      → Ends (λ r. r ≡ ring) OpenPanic (assert_supported codes ring)
  unfolding assert_supported
  assert_supported-Ends [] ring = refl
  assert_supported-Ends (code ∷ codes) ring = elim (Bool-cases (rings.is_supported code ring)) [
    | inl e ↦ rw e (assert_supported-Ends codes ring)
    | inr e ↦ rw e tt
  ]

  module _ (laws : RingLaws io) (reads : ReadLaws io) (fresh : FreshLaws io reads rings) (n : ℕ)
      (words : n ≤ 2 ^ 32) (recv_queue : ℕ) where
    abbrev Good : UdpSocket2IoUring io → Type 0
    Good = InBounds io laws reads n words recv_queue

    open_ring-InBounds :
        (ip_addr : Option (List SocketAddr)) → Ends Good OpenPanic (open_ring n recv_queue ip_addr)
    unfolding open_ring
    open_ring-InBounds ip_addr =
        let size = (n + recv_queue) % 2 ^ 32 in
        Ends-bind (λ _. Unit) Good OpenPanic (open_socket s2 (some udp) ip_addr) _
          (open_socket-Ends s2 (some udp) ip_addr)
          λ socket _ _.
            Ends-bind (λ _. Unit) Good OpenPanic (expect no_ring (rings.create size)) _
              (expect-Ends no_ring OpenPanic (rings.create size) tt)
              λ created made _.
                let e = expect-eq_ok no_ring (rings.create size) created made in
                Ends-bind (λ r. r ≡ created) Good OpenPanic (assert_supported required created) _
                  (assert_supported-Ends required created)
                  λ ring _ same.
                    Ends-bind (λ _. Unit) Good OpenPanic
                      (expect no_local_addr (s2.local_addr socket)) _
                      (expect-Ends no_local_addr OpenPanic (s2.local_addr socket) tt)
                      λ bound _ _.
                        Ends-bind (λ _. Unit) Good OpenPanic (expect no_socket_addr bound) _
                          (expect-Ends no_socket_addr OpenPanic bound tt)
                          λ local_addr _ _.
                            opened-InBounds io laws reads n words recv_queue local_addr ring
                              (rw same (fresh.idle size created e))
                              (rw same (fresh.unused size created e))

    -- With groups that come out even the socket is opened as it should be, or not at all.
    pub new-InBounds :
        (ip_addr : Option (List SocketAddr))
        → recv_queue % recv_buf_group_size ≡ 0
        → Ends Good OpenPanic (new n recv_queue ip_addr)
    unfolding new
    new-InBounds ip_addr even =
        let divides : nat_beq (recv_queue % recv_buf_group_size) 0 ≡ true = ground (arith, even) in
        rw divides (open_ring-InBounds ip_addr)
