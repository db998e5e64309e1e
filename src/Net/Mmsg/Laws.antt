-- ===== src/Net/Mmsg/Laws.antt =====
-- The sendmmsg socket of src/net/socket2_mmsg.rs as the socket of a worker.
use tiny_media_server.Prelude.{
  ℕ, zero, suc, ◌≤◌, ◌<◌, ◌≡◌, refl, List, [], ◌∷◌, length, All, Bool, true, false, halt, leb,
  nat_beq, Ends, Ends-bind, Ends-weaken, arith, Bool-cases, inl, inr, ap, datagram_too_long, Option,
  none, no_local_addr,
}
use tiny_media_server.Prelude.SocketAddr.{SocketAddr}
use tiny_media_server.Tasks.Roles.{Uses}
use tiny_media_server.Tasks.Session.{expect}
use tiny_media_server.Tasks.Session.Laws.{expect-Ends}
use tiny_media_server.Net.Opening.{Socket2, open_socket, OpenPanic, open_socket-Ends}
use tiny_media_server.Net.{UdpLaws, SocketPanic}
use tiny_media_server.Net.Os.{OsSocket, OsLaws}
use tiny_media_server.Net.Mmsg.{
  Slot, UdpSocket2Mmsg, update_at, fill, commit_send_to, enqueue, enqueue_committed, add_send_to,
  recv_from, new, mmsg_socket,
}
use tiny_media_server.Net.Mmsg.Queue.{Queues, IsFull, payloads, destinations}
use tiny_media_server.Net.Mmsg.Refinement.{
  Abstract, Implements, opened-Implements, commit_spec, enqueue_spec, add_spec,
  commit_send_to-Refines, add_send_to-Refines,
}

-- A datagram that no entry has room for.
update_at-too_long :
    (n : ℕ) (buf : List ℕ) (bufs : List Slot)
    → n < length bufs
    → All IsFull bufs
    → 1500 < length buf
    → update_at n (fill buf) bufs ≡ halt datagram_too_long
unfolding update_at fill
update_at-too_long n buf [] lt full long = absurd (omega (arith, lt))
update_at-too_long zero buf (b ∷ bufs) lt full long =
    let no_room : leb (length buf) (length b.bytes) ≡ false = ground (arith, full.0, long) in
    rw no_room
update_at-too_long (suc n) buf (b ∷ bufs) lt full long =
    rw (update_at-too_long n buf bufs (omega (arith, lt)) full.1 long)

module _ (os : OsSocket) (laws : OsLaws os) (queue : ℕ) (some_queue : 0 < queue) where
  -- The queue holds some datagrams.
  abbrev pub Holds : UdpSocket2Mmsg os → Type 0
  Holds s = (q : List (List ℕ × SocketAddr)) × Queues os queue q s

  pub new-Holds :
      (s2 : Socket2) (into : s2.Socket → os.UdpSocket) (ip_addr : Option (List SocketAddr))
      → Ends Holds OpenPanic (new os s2 into queue ip_addr)
  unfolding new
  new-Holds s2 into ip_addr =
      Ends-bind (λ _. Unit) Holds OpenPanic (open_socket s2 none ip_addr) _
        (open_socket-Ends s2 none ip_addr)
        λ socket _ _.
          Ends-bind (λ _. Unit) Holds OpenPanic (expect no_local_addr (os.local_addr (into socket)))
            _ (expect-Ends no_local_addr OpenPanic (os.local_addr (into socket)) tt)
            λ local_addr _ _. ([], (opened-Implements os queue local_addr (into socket)).0)

  commit_spec-ready : (a : Abstract os queue) → os.ready (commit_spec os queue a).1.1 ≤ os.ready a.1
  commit_spec-ready (q, s) = laws.sendmmsg_ready (payloads q) (destinations q) s

  enqueue_spec-ready :
      (buf : List ℕ) (dest : SocketAddr) (x : Bool × Abstract os queue)
      → os.ready (enqueue_spec os queue buf dest x).1.1 ≤ os.ready x.1.1
  enqueue_spec-ready buf dest (false, a) = omega arith
  enqueue_spec-ready buf dest (true, (q, s)) = omega arith

  add_spec-ready :
      (buf : List ℕ) (dest : SocketAddr) (a : Abstract os queue)
      → os.ready (add_spec os queue buf dest a).1.1 ≤ os.ready a.1
  add_spec-ready buf dest a = elim (Bool-cases (nat_beq (length a.0) queue)) [
    | inl full ↦
        rw full
          (omega (arith, enqueue_spec-ready buf dest (commit_spec os queue a), commit_spec-ready a))
    | inr room ↦ rw room (omega (arith, enqueue_spec-ready buf dest (true, a)))
  ]

  -- What a call that came to an end leaves.
  abbrev pub Left : UdpSocket2Mmsg os → UdpSocket2Mmsg os → Type 0
  Left s s' = Holds s' × (os.ready s'.socket ≤ os.ready s.socket)

  Implements-Left :
      (a : Abstract os queue) (s s' : UdpSocket2Mmsg os)
      → os.ready a.1 ≤ os.ready s.socket
      → Implements os queue a s'
      → Left s s'
  Implements-Left a s s' le (h, same) = ((a.0, h), omega (arith, le, ap os.ready same))

  commit-Left :
      (s : UdpSocket2Mmsg os) → Holds s → Ends (λ x. Left s x.1) SocketPanic (commit_send_to os s)
  commit-Left s (q, h) =
      let a : Abstract os queue = (q, s.socket) in
      Ends-weaken _ (λ x. Left s x.1) _ SocketPanic (commit_send_to os s)
        (commit_send_to-Refines os queue a s (h, refl))
        (λ x r. Implements-Left (commit_spec os queue a).1 s x.1 (commit_spec-ready a) r.1)
        (λ p no. absurd no)

  too_long-Left :
      (buf : List ℕ) (dest : SocketAddr) (s s' : UdpSocket2Mmsg os)
      → 1500 < length buf
      → All IsFull s'.bufs
      → s'.queue_len < length s'.bufs
      → Ends (λ x. Left s x.1) SocketPanic (enqueue os buf dest s')
  unfolding enqueue
  too_long-Left buf dest s s' long full room =
      rw (update_at-too_long s'.queue_len buf s'.bufs room full long) tt

  committed-Left :
      (buf : List ℕ) (dest : SocketAddr) (s : UdpSocket2Mmsg os) (sent : Bool)
      (s' : UdpSocket2Mmsg os)
      → 1500 < length buf
      → Left s s'
      → Ends (λ x. Left s x.1) SocketPanic (enqueue_committed os buf dest (sent, s'))
  unfolding enqueue_committed
  committed-Left buf dest s false s' long h = h
  committed-Left buf dest s true s' long ((q, h), le) =
      too_long-Left buf dest s (record s' { queue_len = 0 }) long h.full
        (omega (arith, h.bufs, some_queue))

  add_too_long-Left :
      (buf : List ℕ) (dest : SocketAddr) (s : UdpSocket2Mmsg os)
      → 1500 < length buf
      → Holds s
      → Ends (λ x. Left s x.1) SocketPanic (add_send_to os queue buf dest s)
  unfolding add_send_to
  add_too_long-Left buf dest s long (q, h) = elim (Bool-cases (nat_beq s.queue_len queue)) [
    | inl full ↦ rw full (
        Ends-bind (λ x. Left s x.1) (λ x. Left s x.1) SocketPanic (commit_send_to os s)
          (enqueue_committed os buf dest) (commit-Left s (q, h))
          (λ (sent, s') _ l. committed-Left buf dest s sent s' long l))
    | inr room ↦
        rw room
          (too_long-Left buf dest s s long h.full (ground (arith, room, h.count, h.fits, h.bufs)))
  ]

  pub add-Left :
      (buf : List ℕ) (dest : SocketAddr) (s : UdpSocket2Mmsg os)
      → Holds s
      → Ends (λ x. Left s x.1) SocketPanic (add_send_to os queue buf dest s)
  add-Left buf dest s (q, h) = elim (Bool-cases (leb (length buf) 1500)) [
    | inl small ↦
        let a : Abstract os queue = (q, s.socket) in
        Ends-weaken _ (λ x. Left s x.1) _ SocketPanic (add_send_to os queue buf dest s)
          (add_send_to-Refines os queue buf dest a s some_queue (ground (arith, small)) (h, refl))
          (λ x r.
            Implements-Left (add_spec os queue buf dest a).1 s x.1 (add_spec-ready buf dest a) r.1)
          (λ p no. absurd no)
    | inr long ↦ add_too_long-Left buf dest s (ground (arith, long)) (q, h)
  ]

  pub recv-Left :
      (s : UdpSocket2Mmsg os)
      → Holds s
      → Holds (recv_from os s).1
        × Uses (recv_from os s).0 (os.ready s.socket) (os.ready (recv_from os s).1.socket)
  unfolding recv_from
  recv-Left s (q, h) = (
    (
      q,
      record {
        count = h.count;
        fits = h.fits;
        payload = h.payload;
        to = h.to;
        bufs = h.bufs;
        addrs = h.addrs;
        full = h.full;
      },
    ),
    laws.recv-Uses 1500 s.socket,
  )

  pub commit-Holds :
      (s : UdpSocket2Mmsg os) → Holds s → Ends (λ x. Holds x.1) SocketPanic (commit_send_to os s)
  commit-Holds s h =
      Ends-weaken (λ x. Left s x.1) (λ x. Holds x.1) SocketPanic SocketPanic (commit_send_to os s)
        (commit-Left s h) (λ x l. l.0) (λ p q. q)

  -- The laws, with what they hold of.
  abbrev pub mmsg_laws : UdpLaws (mmsg_socket os queue)
  mmsg_laws = record {
    Holds = Holds;
    prepare-Ends = λ s h. h;
    add_send-Ends = add-Left;
    recv-Ends = recv-Left;
    commit-Ends = commit-Holds;
    finish-Ends = λ s h. h;
  }
