-- ===== src/Tests/MultishotTests.antt =====
-- The calls of the io_uring socket over the ring of RingBench.
use tiny_media_server.Prelude.{refl, List, [], ◌∷◌, Ends, arith}
use tiny_media_server.Net.IoUring.Socket.{opened}
use tiny_media_server.Net.IoUring.Lifetime.{Call, prepare_call, add, commit, receive, finish, calls}
use tiny_media_server.Net.IoUring.Receiving.{ReadPanic}
use tiny_media_server.Net.IoUring.Bounds.{InBounds, in_bounds}
use tiny_media_server.Tests.Bench.{peer}
use tiny_media_server.Tests.RingBench.{ring, empty, ring_laws, read_laws}

-- A datagram is received, and one is sent.
abbrev session : List Call
session = prepare_call ∷ receive ∷ add (1 ∷ []) peer ∷ commit ∷ finish ∷ receive ∷ []

in_bounds_example :
    Ends
      (InBounds ring ring_laws read_laws 2 (omega arith) 16)
      ReadPanic
      (calls ring 16 session (opened ring 2 peer empty))
in_bounds_example =
    in_bounds ring ring_laws read_laws 2 (omega arith) 16 session peer empty (λ j. refl) refl
      (tt, (tt, (omega arith, (tt, (tt, (tt, tt))))))
