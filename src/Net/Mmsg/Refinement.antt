-- ===== src/Net/Mmsg/Refinement.antt =====
-- `UdpSocket2Mmsg` against a list of datagrams that knows nothing of entries and indices.
use tiny_media_server.Prelude.{
  ℕ, ◌≤◌, ◌<◌, ◌≡◌, refl, List, [], ◌∷◌, ◌++◌, length, Bool, true, false, Option, none, some,
  Outcome, ok, ◌>>=◌, Ends, Ends-bind, arith, nat_beq, Bool-cases, inl, inr, if◌then◌else◌,
  length-append, length-replicate, All-replicate, All, ap, ◌∙◌,
}
use tiny_media_server.Prelude.SocketAddr.{SocketAddr}
use tiny_media_server.Net.Os.{OsSocket}
use tiny_media_server.Net.Mmsg.{
  UdpSocket2Mmsg, slice_to, iovs, commit_send_to, enqueue, enqueue_committed, add_send_to, opened,
}
use tiny_media_server.Net.Mmsg.Queue.{
  Queues, IsFull, payloads, destinations, leb-true, payloads-append, destinations-append,
  iovs-update_at, take-update_at, add_one,
}

-- A call of the sending half of the trait, and what it answers.
pub data Call : Type 0 where
  add : List ℕ → SocketAddr → Call
  commit : Call

pub data Answer : Type 0 where
  added : Option ℕ → Answer
  committed : Bool → Answer

-- A datagram fits a buffer.
abbrev pub IsSmall : Call → Type 0
IsSmall (add buf dest) = length buf ≤ 1500
IsSmall commit = Unit

module _ (os : OsSocket) (queue : ℕ) where
  -- The abstract socket: the queued datagrams, and the operating system's socket.
  abbrev pub Abstract : Type 0
  Abstract = List (List ℕ × SocketAddr) × os.UdpSocket

  abbrev pub commit_spec : Abstract → Bool × Abstract
  commit_spec (q, s) =
      let (sent, s') = os.sendmmsg (payloads q) (destinations q) s in (sent, ([], s'))

  abbrev pub enqueue_spec : List ℕ → SocketAddr → Bool × Abstract → Option ℕ × Abstract
  enqueue_spec buf dest (false, a) = (none, a)
  enqueue_spec buf dest (true, (q, s)) = (some (length buf), (q ++ (buf, dest) ∷ [], s))

  -- A full queue is sent first, and lost if it cannot be sent.
  abbrev pub add_spec : List ℕ → SocketAddr → Abstract → Option ℕ × Abstract
  add_spec buf dest (q, s) =
      enqueue_spec buf dest
        (if nat_beq (length q) queue then commit_spec (q, s) else (true, (q, s)))

  abbrev pub call_spec : Call → Abstract → Answer × Abstract
  call_spec (add buf dest) a = let (n, a') = add_spec buf dest a in (added n, a')
  call_spec commit a = let (sent, a') = commit_spec a in (committed sent, a')

  abbrev pub call : Call → UdpSocket2Mmsg os → Outcome (Answer × UdpSocket2Mmsg os)
  call (add buf dest) s = do (n, s') ← add_send_to os queue buf dest s; ok (added n, s')
  call commit s = do (sent, s') ← commit_send_to os s; ok (committed sent, s')

  abbrev pub calls_spec : List Call → Abstract → List Answer × Abstract
  calls_spec [] a = ([], a)
  calls_spec (c ∷ cs) a =
      let (x, a') = call_spec c a in let (xs, a'') = calls_spec cs a' in (x ∷ xs, a'')

  abbrev pub calls : List Call → UdpSocket2Mmsg os → Outcome (List Answer × UdpSocket2Mmsg os)
  calls [] s = ok ([], s)
  calls (c ∷ cs) s = do (x, s') ← call c s; (xs, s'') ← calls cs s'; ok (x ∷ xs, s'')

  -- The concrete socket holds what the abstract one holds.
  abbrev pub Implements : Abstract → UdpSocket2Mmsg os → Type 0
  Implements a s = Queues os queue a.0 s × (s.socket ≡ a.1)

  -- The concrete call answers as the abstract one, and leaves the sockets alike. It never panics.
  abbrev pub Refines : {A : Type 0} → A × Abstract → Outcome (A × UdpSocket2Mmsg os) → Type 0
  Refines x = Ends (λ y. (y.0 ≡ x.0) × Implements x.1 y.1) (λ _. ⊥)

  pub commit_send_to-Refines :
      (a : Abstract) (s : UdpSocket2Mmsg os)
      → Implements a s
      → Refines (commit_spec a) (commit_send_to os s)
  unfolding commit_send_to slice_to iovs
  commit_send_to-Refines a s (h, same) =
      rw
        (
          h.payload,
          leb-true s.queue_len (length s.addrs) (omega (arith, h.count, h.fits, h.addrs)),
          h.to,
          same,
        )
        (
          refl,
          (
            record {
              count = refl;
              fits = omega arith;
              payload = refl;
              to = refl;
              bufs = h.bufs;
              addrs = h.addrs;
              full = h.full;
            },
            refl,
          ),
        )

  enqueue-Refines :
      (buf : List ℕ) (dest : SocketAddr) (a : Abstract) (s : UdpSocket2Mmsg os)
      → Implements a s
      → length a.0 < queue
      → length buf ≤ 1500
      → Refines (enqueue_spec buf dest (true, a)) (enqueue os buf dest s)
  unfolding enqueue
  enqueue-Refines buf dest a s (h, same) room small =
      let p =
        iovs-update_at s.queue_len buf s.bufs (payloads a.0) h.payload
          (omega (arith, h.count, h.bufs)) h.full small in
      let r = take-update_at s.queue_len dest s.addrs (omega (arith, h.count, h.addrs)) in
      rw (p.updated, r.updated)
        (
          refl,
          (
            record {
              count = omega (arith, h.count, length-append a.0 ((buf, dest) ∷ []));
              fits = omega (arith, length-append a.0 ((buf, dest) ∷ []));
              payload = rw (payloads-append a.0 buf dest, add_one s.queue_len) p.pushed;
              to = rw (destinations-append a.0 buf dest, add_one s.queue_len, ← h.to) r.addressed;
              bufs = omega (arith, p.same_length, h.bufs);
              addrs = omega (arith, r.same_length, h.addrs);
              full = p.full;
            },
            same,
          ),
        )

  committed-Refines :
      (buf : List ℕ) (dest : SocketAddr) (sent : Bool) (socket : os.UdpSocket)
      (s : UdpSocket2Mmsg os)
      → Implements ([], socket) s
      → 0 < queue
      → length buf ≤ 1500
      → Refines
          (enqueue_spec buf dest (sent, ([], socket)))
          (enqueue_committed os buf dest (sent, s))
  unfolding enqueue_committed iovs
  committed-Refines buf dest false socket s h room small = (refl, h)
  committed-Refines buf dest true socket s (h, same) room small =
      enqueue-Refines buf dest ([], socket) (record s { queue_len = 0 })
        (
          record {
            count = refl;
            fits = h.fits;
            payload = refl;
            to = refl;
            bufs = h.bufs;
            addrs = h.addrs;
            full = h.full;
          },
          same,
        )
        room small

  pub add_send_to-Refines :
      (buf : List ℕ) (dest : SocketAddr) (a : Abstract) (s : UdpSocket2Mmsg os)
      → 0 < queue
      → length buf ≤ 1500
      → Implements a s
      → Refines (add_spec buf dest a) (add_send_to os queue buf dest s)
  unfolding add_send_to
  add_send_to-Refines buf dest a s some_queue small h =
      elim (Bool-cases (nat_beq (length a.0) queue)) [
        | inl full ↦
            rw (ap (λ n. nat_beq n queue) h.0.count ∙ full, full)
              (Ends-bind (λ y. (y.0 ≡ (commit_spec a).0) × Implements (commit_spec a).1 y.1) _ _
                (commit_send_to os s) (enqueue_committed os buf dest) (commit_send_to-Refines a s h)
                (λ y _ g. rw (← g.0) (committed-Refines buf dest y.0 _ y.1 g.1 some_queue small)))
        | inr room ↦
            rw (ap (λ n. nat_beq n queue) h.0.count ∙ room, room)
              (enqueue-Refines buf dest a s h (ground (arith, room, h.0.fits)) small)
      ]

  call-Refines :
      (c : Call) (a : Abstract) (s : UdpSocket2Mmsg os)
      → 0 < queue
      → IsSmall c
      → Implements a s
      → Refines (call_spec c a) (call c s)
  call-Refines (add buf dest) a s some_queue small h =
      Ends-bind (λ y. (y.0 ≡ (add_spec buf dest a).0) × Implements (add_spec buf dest a).1 y.1) _ _
        (add_send_to os queue buf dest s) (λ y. ok (added y.0, y.1))
        (add_send_to-Refines buf dest a s some_queue small h) (λ y _ g. (ap added g.0, g.1))
  call-Refines commit a s some_queue small h =
      Ends-bind (λ y. (y.0 ≡ (commit_spec a).0) × Implements (commit_spec a).1 y.1) _ _
        (commit_send_to os s) (λ y. ok (committed y.0, y.1)) (commit_send_to-Refines a s h)
        (λ y _ g. (ap committed g.0, g.1))

  calls-Refines :
      (cs : List Call) (a : Abstract) (s : UdpSocket2Mmsg os)
      → 0 < queue
      → All IsSmall cs
      → Implements a s
      → Refines (calls_spec cs a) (calls cs s)
  calls-Refines [] a s some_queue small h = (refl, h)
  calls-Refines (c ∷ cs) a s some_queue small h =
      Ends-bind (λ y. (y.0 ≡ (call_spec c a).0) × Implements (call_spec c a).1 y.1) _ _ (call c s) _
        (call-Refines c a s some_queue small.0 h)
        (λ y _ g.
          Ends-bind
            (λ z.
              (z.0 ≡ (calls_spec cs (call_spec c a).1).0)
              × Implements (calls_spec cs (call_spec c a).1).1 z.1)
            _ _ (calls cs y.1) (λ z. ok (y.0 ∷ z.0, z.1))
            (calls-Refines cs (call_spec c a).1 y.1 some_queue small.1 g.1)
            (λ z _ k. (cc (g.0, k.0), k.1)))

  pub opened-Implements :
      (local_addr : SocketAddr) (socket : os.UdpSocket)
      → Implements ([], socket) (opened os queue local_addr socket)
  unfolding opened iovs
  opened-Implements local_addr socket = (
    record {
      count = refl;
      fits = omega arith;
      payload = refl;
      to = refl;
      bufs = length-replicate queue _;
      addrs = length-replicate queue none;
      full = All-replicate IsFull queue _ (length-replicate {A = ℕ} 1500 0);
    },
    refl,
  )

  -- For a queue of at least one entry, any calls of add_send_to and commit_send_to on a new
  -- sendmmsg socket, with datagrams of at most 1500 bytes, end without a panic, answer as the list
  -- of datagrams of calls_spec does, and leave the operating system's socket, which has been told
  -- to send the same datagrams in the same batches, and the queue as calls_spec leaves them.
  pub calls_lem :
      (cs : List Call) (local_addr : SocketAddr) (socket : os.UdpSocket)
      → 0 < queue
      → All IsSmall cs
      → Refines (calls_spec cs ([], socket)) (calls cs (opened os queue local_addr socket))
  calls_lem cs local_addr socket some_queue small =
      calls-Refines cs ([], socket) (opened os queue local_addr socket) some_queue small
        (opened-Implements local_addr socket)
