-- ===== src/Tests/RingTests.antt =====
-- The io_uring socket over a ring that completes each send by one completion, in order.
use tiny_media_server.Prelude.{
  ℕ, ◌+◌, ◌<◌, ◌≡◌, refl, List, [], ◌∷◌, ◌++◌, Bool, true, false, Option, none, some, length, Ends,
  arith, get_elem?, ap, some_injective,
}
use tiny_media_server.Tasks.Roles.{Uses}
use tiny_media_server.Net.IoUring.{send, from_u64}
use tiny_media_server.Net.IoUring.Ring.{
  IoUring, RingLaws, Entry, send_msg_zc, provide, recv_msg_multi, ends_send, sent_by, IsLabelled,
}
use tiny_media_server.Net.IoUring.Socket.{UdpSocket2IoUring, opened, add_to_free}
use tiny_media_server.Net.IoUring.Slots.{Slots, SendPanic}
use tiny_media_server.Net.IoUring.Sending.{add_to_free_lem}
use tiny_media_server.Net.IoUring.Lifetime.{
  Call, prepare_call, add, commit, receive, finish, calls, Returns, lifetime, opened-Slots,
}
use tiny_media_server.Tests.Bench.{peer}

abbrev push : Entry → List ℕ → Option (List ℕ)
push (send_msg_zc i u) r = some (r ++ u ∷ [])
push _ r = some r

abbrev next : List ℕ → Option (ℕ × Bool) × List ℕ
next [] = (none, [])
next (u ∷ r) = (some (u, false), r)

abbrev flying : ℕ → List ℕ → ℕ
flying j [] = 0
flying j (u ∷ r) = ends_send (from_u64 u) false j + flying j r

abbrev ring : IoUring
ring = record {
  Ring = List ℕ;
  Flags = Bool;
  push = push;
  submit = λ bufs r. (true, r);
  next_completion = next;
  more = λ f. f;
  buffer_select = λ f. none;
  read_buf = λ idx r. none;
  in_flight = flying;
  completed = length;
}

flying-append :
    (j i u : ℕ) (r : List ℕ)
    → from_u64 u ≡ send i
    → flying j (r ++ u ∷ []) ≡ flying j r + sent_by (send_msg_zc i u) j
flying-append j i u [] e = rw e (omega arith)
flying-append j i u (v ∷ r) e = omega (arith, flying-append j i u r e)

push-flying :
    (e : Entry) (r r' : List ℕ) (j : ℕ)
    → IsLabelled e
    → push e r ≡ some r'
    → flying j r' ≡ flying j r + sent_by e j
push-flying (send_msg_zc i u) r r' j l h = rw (← some_injective h) (flying-append j i u r l)
push-flying (provide g i u) r r' j l h = rw (← some_injective h) (omega arith)
push-flying (recv_msg_multi g u) r r' j l h = rw (← some_injective h) (omega arith)

next-flying :
    (r : List ℕ) (u : ℕ) (f : Bool) (j : ℕ)
    → (next r).0 ≡ some (u, f)
    → flying j r ≡ ends_send (from_u64 u) f j + flying j (next r).1
next-flying [] u f j h = cc
next-flying (v ∷ r) u f j h =
    ap (λ o. elim o [ none ↦ 0 | some x ↦ ends_send (from_u64 x.0) x.1 j + flying j r ]) h

next-idle : (r : List ℕ) (j : ℕ) → (next r).0 ≡ none → flying j r ≡ flying j (next r).1
next-idle [] j h = refl
next-idle (v ∷ r) j h = cc

next-Uses : (r : List ℕ) → Uses (next r).0 (length r) (length (next r).1)
next-Uses [] = tt
next-Uses (v ∷ r) = omega arith

ring_laws : RingLaws ring
ring_laws = record {
  push_in_flight = push-flying;
  submit_in_flight = λ bufs r j. refl;
  next_in_flight = next-flying;
  next_idle = next-idle;
  next-Uses = next-Uses;
}

abbrev session : List Call
session = prepare_call ∷ add (1 ∷ []) peer ∷ commit ∷ receive ∷ add (2 ∷ []) peer ∷ finish ∷ []

lifetime_example : Returns (Slots ring 2) (calls ring 16 session (opened ring 2 peer []))
lifetime_example =
    lifetime ring ring_laws 2 (omega arith) 16 session peer [] (λ j. refl)
      (tt, (omega arith, (tt, (tt, (omega arith, (tt, tt))))))

abbrev fresh : UdpSocket2IoUring ring
fresh = opened ring 2 peer []

-- Packet 0 is in flight, packet 1 is free.
abbrev half : UdpSocket2IoUring ring
half = record fresh { ring = 0 ∷ []; send_free_queue = 1 ∷ [] }

half-Slots : Slots ring 2 half
unfolding from_u64
half-Slots =
    let h = opened-Slots ring ring_laws 2 (omega arith) 16 peer [] (λ j. refl) in
    record { conserved = λ j. ground arith; bufs = h.bufs; whole = h.whole }

half-flying : 0 < flying 0 half.ring
unfolding from_u64
half-flying = omega arith

add_to_free_lem_example :
    Ends
      (λ r. Slots ring 2 r.1 × (get_elem? r.1.send_bufs 0 ≡ get_elem? half.send_bufs 0))
      SendPanic
      (add_to_free ring (7 ∷ []) peer half half.send_free_queue)
add_to_free_lem_example =
    add_to_free_lem ring ring_laws 2 (omega arith) (7 ∷ []) peer half 0 (omega arith) half-Slots
      half-flying
