-- ===== src/Tests/WireTests.antt =====
-- The plain and the sendmmsg socket over an operating system's socket that logs each datagram.
use tiny_media_server.Prelude.{
  ℕ, ◌≡◌, refl, List, [], ◌∷◌, ◌++◌, true, Option, none, some, length, Ends, arith,
}
use tiny_media_server.Prelude.SocketAddr.{SocketAddr}
use tiny_media_server.Net.Os.{OsSocket}
use tiny_media_server.Net.Plain
use tiny_media_server.Net.Mmsg.{opened}
use tiny_media_server.Net.Mmsg.Queue.{payloads, destinations}
use tiny_media_server.Net.Mmsg.Refinement.{Call, add, commit, calls}
use tiny_media_server.Net.Wire.{Wire, same_wire}
use tiny_media_server.Tests.Bench.{peer}

abbrev addressed : List (List ℕ) → List (Option SocketAddr) → List (List ℕ × SocketAddr)
addressed [] to = []
addressed (buf ∷ bufs) [] = []
addressed (buf ∷ bufs) (none ∷ to) = addressed bufs to
addressed (buf ∷ bufs) (some dest ∷ to) = (buf, dest) ∷ addressed bufs to

abbrev os : OsSocket
os = record {
  UdpSocket = List (List ℕ × SocketAddr);
  local_addr = λ s. some peer;
  send_to = λ buf to s. (some (length buf), s ++ (buf, to) ∷ []);
  sendmmsg = λ bufs to s. (true, s ++ addressed bufs to);
  recv_from = λ n s. (none, s);
  ready = λ s. 0;
}

addressed_lem : (q : List (List ℕ × SocketAddr)) → addressed (payloads q) (destinations q) ≡ q
addressed_lem [] = refl
addressed_lem (d ∷ q) = rw (addressed_lem q)

abbrev wire : Wire os
wire = record {
  wire = λ s. s;
  takes_all = λ q s. true;
  wire-send_to = λ buf to n s e. refl;
  wire-sendmmsg = λ q s e. (refl, rw (addressed_lem q) refl);
}

-- Three datagrams through a queue of two.
abbrev three : List Call
three = add (1 ∷ []) peer ∷ add (2 ∷ []) peer ∷ add (3 ∷ []) peer ∷ []

same_wire_example :
    Ends
      (λ y. y.1.socket ≡ (1 ∷ [], peer) ∷ (2 ∷ [], peer) ∷ (3 ∷ [], peer) ∷ [])
      (λ _. ⊥)
      (calls os 2 (three ++ commit ∷ []) (opened os 2 peer []))
unfolding Plain.add_send_to
same_wire_example =
    same_wire os wire 2 three peer [] (omega arith) (omega arith, (omega arith, (omega arith, tt)))
      refl refl
