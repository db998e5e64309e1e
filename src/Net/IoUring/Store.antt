-- ===== src/Net/IoUring/Store.antt =====
-- How many datagrams the io_uring socket of src/net/socket2_io_uring.rs has in store, over the calls
-- that the worker repeats.
use tiny_media_server.Prelude.{
  ℕ, zero, suc, ◌+◌, ◌≤◌, ◌<◌, ◌≡◌, refl, List, [], ◌∷◌, length, ltb, none, some, Yields,
  Yields-bind, Yields-any, Yields-weaken, arith, Bool-cases, Option-cases, inl, inr, length-append,
  Option,
}
use tiny_media_server.Prelude.SocketAddr.{SocketAddr}
use tiny_media_server.Tasks.Roles.{Uses}
use tiny_media_server.Net.Mmsg.{update_at}
use tiny_media_server.Net.IoUring.{
  UserData, send, recv, provide_buffers, to_u32, into_u64, from_u64,
}
use tiny_media_server.Net.IoUring.Ring.{IoUring, RingLaws, Entry, send_msg_zc}
use tiny_media_server.Net.IoUring.Socket.{
  UdpSocket2IoUring, fill_packet, on_completion, poll_loop, poll_completions, send_packet,
  add_to_free, add_send_to, recv_waiting, recv_from, store,
}

-- An entry is completed only after it is submitted, and to find no completion brings none.
pub record StoreLaws (io : IoUring) : Type 0 where
  pub push_completed :
      (e : Entry) (r r' : io.Ring) → io.push e r ≡ some r' → io.completed r' ≤ io.completed r
  pub idle_completed :
      (r : io.Ring)
      → (io.next_completion r).0 ≡ none
      → io.completed (io.next_completion r).1 ≤ io.completed r

module _ (io : IoUring) (laws : RingLaws io) (stores : StoreLaws io) where
  -- One buffer more waits at most, and the ring is the same.
  abbrev Grown : UdpSocket2IoUring io → UdpSocket2IoUring io → Type 0
  Grown s x = (x.ring ≡ s.ring) × (length x.read_wait_queue ≤ length s.read_wait_queue + 1)

  on_completion-Grown :
      (d : UserData) (f : io.Flags) (s : UdpSocket2IoUring io)
      → Yields (Grown s) (on_completion io d f s)
  unfolding on_completion
  on_completion-Grown (recv group) f s = elim (Bool-cases (io.more f)) [
    | inl e ↦ elim (Option-cases (io.buffer_select f)) [
      | inl unselected ↦ rw (e, unselected) tt
      | inr (idx, selected) ↦
          rw (e, selected)
            (refl, omega (arith, length-append s.read_wait_queue (to_u32 group idx ∷ [])))
    ]
    | inr e ↦ rw e (refl, omega arith)
  ]
  on_completion-Grown (send idx) f s = elim (Bool-cases (io.more f)) [
    | inl e ↦ rw e (refl, omega arith)
    | inr e ↦ rw e (refl, omega arith)
  ]
  on_completion-Grown (provide_buffers idx) f s = (refl, omega arith)

  -- No more in store than before.
  abbrev pub NoMore : UdpSocket2IoUring io → UdpSocket2IoUring io → Type 0
  NoMore s x = store io x ≤ store io s

  poll_loop-NoMore : (fuel : ℕ) (s : UdpSocket2IoUring io) → Yields (NoMore s) (poll_loop io fuel s)
  unfolding poll_loop
  poll_loop-NoMore zero s = tt
  poll_loop-NoMore (suc fuel) s =
      let r = (io.next_completion s.ring).1 in
      let next : UdpSocket2IoUring io = record s { ring = r } in
      elim (Option-cases (io.next_completion s.ring).0) [
        | inl e ↦ rw (e, poll_loop, Yields) (omega (arith, stores.idle_completed s.ring e))
        | inr ((u, f), e) ↦
            let less : io.completed r < io.completed s.ring = rw e at (laws.next-Uses s.ring) in
            rw (e, poll_loop, Yields)
              (Yields-bind (Grown next) (NoMore s) (on_completion io (from_u64 u) f next)
                (poll_loop io fuel) (on_completion-Grown (from_u64 u) f next)
                λ x (same, grown).
                  let kept : io.completed x.ring < io.completed s.ring = rw same less in
                  Yields-weaken (NoMore x) (NoMore s) (poll_loop io fuel x)
                    (poll_loop-NoMore fuel x) (λ y le. omega (arith, le, grown, kept)))
      ]

  poll_completions-NoMore : (s : UdpSocket2IoUring io) → Yields (NoMore s) (poll_completions io s)
  unfolding poll_completions
  poll_completions-NoMore s = poll_loop-NoMore (suc (io.completed s.ring)) s

  send_packet-NoMore :
      (buf : List ℕ) (dest : SocketAddr) (i : ℕ) (s : UdpSocket2IoUring io)
      → Yields (NoMore s) (send_packet io buf dest i s)
  unfolding send_packet
  send_packet-NoMore buf dest i s =
      let entry = send_msg_zc i (into_u64 (send i)) in
      Yields-bind (λ _. Unit) (NoMore s) (update_at i (fill_packet buf dest) s.send_bufs) _
        (Yields-any _)
        λ bufs _. elim (Option-cases (io.push entry s.ring)) [
          | inl full ↦ rw full tt
          | inr (r, pushed) ↦ rw pushed (omega (arith, stores.push_completed entry s.ring r pushed))
        ]

  add_to_free-NoMore :
      (buf : List ℕ) (dest : SocketAddr) (s : UdpSocket2IoUring io) (free : List ℕ)
      → Yields (λ r. NoMore s r.1) (add_to_free io buf dest s free)
  unfolding add_to_free
  add_to_free-NoMore buf dest s [] = omega arith
  add_to_free-NoMore buf dest s (i ∷ free) =
      Yields-bind (NoMore s) (λ r. NoMore s r.1)
        (send_packet io buf dest i (record s { send_free_queue = free })) _
        (send_packet-NoMore buf dest i (record s { send_free_queue = free })) λ s' le. le

  pub add_send_to-NoMore :
      (buf : List ℕ) (dest : SocketAddr) (s : UdpSocket2IoUring io)
      → Yields (λ r. NoMore s r.1) (add_send_to io buf dest s)
  unfolding add_send_to
  add_send_to-NoMore buf dest s =
      Yields-bind (NoMore s) (λ r. NoMore s r.1) (poll_completions io s) _
        (poll_completions-NoMore s)
        λ s' le.
          Yields-weaken (λ r. NoMore s' r.1) (λ r. NoMore s r.1)
            (add_to_free io buf dest s' s'.send_free_queue)
            (add_to_free-NoMore buf dest s' s'.send_free_queue) (λ r le'. omega (arith, le, le'))

  recv_waiting-Uses :
      (recv_queue : ℕ) (s : UdpSocket2IoUring io) (waiting : List ℕ)
      → s.read_wait_queue ≡ waiting
      → Yields (λ r. Uses r.0 (store io s) (store io r.1)) (recv_waiting io recv_queue s waiting)
  unfolding recv_waiting
  recv_waiting-Uses recv_queue s [] e = tt
  recv_waiting-Uses recv_queue s (idx ∷ waiting) e = elim (Bool-cases (ltb idx recv_queue)) [
    | inr outside ↦ rw outside tt
    | inl inside ↦ elim (Option-cases (io.read_buf idx s.ring)) [
      | inl unparsed ↦ rw (inside, unparsed) tt
      | inr (d, parsed) ↦ rw (inside, parsed) (rw e (omega arith))
    ]
  ]

  -- What is not more uses up no less.
  Uses-before : (o : Option (List ℕ × SocketAddr)) (n m k : ℕ) → Uses o n k → n ≤ m → Uses o m k
  Uses-before none n m k h le = tt
  Uses-before (some d) n m k h le = omega (arith, h, le)

  pub recv_from-Uses :
      (recv_queue : ℕ) (s : UdpSocket2IoUring io)
      → Yields (λ r. Uses r.0 (store io s) (store io r.1)) (recv_from io recv_queue s)
  unfolding recv_from
  recv_from-Uses recv_queue s =
      Yields-bind (NoMore s) (λ r. Uses r.0 (store io s) (store io r.1)) (poll_completions io s) _
        (poll_completions-NoMore s)
        λ s' le.
          Yields-weaken (λ r. Uses r.0 (store io s') (store io r.1))
            (λ r. Uses r.0 (store io s) (store io r.1))
            (recv_waiting io recv_queue s' s'.read_wait_queue)
            (recv_waiting-Uses recv_queue s' s'.read_wait_queue refl)
            (λ (o, x) h. Uses-before o (store io s') (store io s) (store io x) h le)
