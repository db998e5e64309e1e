-- ===== src/Tests/NetTests.antt =====
-- The sockets over an operating system's socket that logs what it is told to send.
use tiny_media_server.Prelude.{
  ℕ, ◌/◌, ◌≡◌, refl, List, [], ◌∷◌, ◌++◌, Bool, true, false, Option, none, some, length, arith,
}
use tiny_media_server.Prelude.SocketAddr.{SocketAddr}
use tiny_media_server.Net.Os.{OsSocket, OsLaws}
use tiny_media_server.Net.Mmsg.{opened}
use tiny_media_server.Net.Mmsg.Refinement.{
  Call, add, commit, added, committed, calls, calls_spec, Refines, calls_lem,
}
use tiny_media_server.Net.IoUring.{
  recv_buf_group_size, to_u32, index, index-to_u32, UserData, into_u64, from_u64, from_u64-into_u64,
}
use tiny_media_server.Tasks.Roles.{Uses}
use tiny_media_server.Tests.Bench.{peer}

-- What was sent, and what has come in.
pub record Wire : Type 0 where
  pub sent : List (List (List ℕ))
  pub arrived : List (List ℕ × SocketAddr)

abbrev pub read : Wire → List (List ℕ × SocketAddr) → Option (List ℕ × SocketAddr) × Wire
read s [] = (none, s)
read s (d ∷ ds) = (some d, record s { arrived = ds })

-- A call of sendmmsg is refused when nothing is queued.
abbrev pub accepts : List (List ℕ) → Bool
accepts [] = false
accepts (buf ∷ bufs) = true

abbrev pub os : OsSocket
os = record {
  UdpSocket = Wire;
  local_addr = λ s. some peer;
  send_to = λ buf to s. (some (length buf), record s { sent = s.sent ++ (buf ∷ []) ∷ [] });
  sendmmsg = λ bufs to s. (accepts bufs, record s { sent = s.sent ++ bufs ∷ [] });
  recv_from = λ n s. read s s.arrived;
  ready = λ s. length s.arrived;
}

abbrev pub wire : Wire
wire = record { sent = []; arrived = (5 ∷ [], peer) ∷ [] }

-- Three datagrams through a queue of two.
abbrev three : List Call
three = add (1 ∷ []) peer ∷ add (2 ∷ []) peer ∷ add (3 ∷ []) peer ∷ commit ∷ []

sent_in_order : calls_spec os 2 three ([], wire) ≡ (
  added (some 1) ∷ added (some 1) ∷ added (some 1) ∷ committed true ∷ [],
  ([], record wire { sent = ((1 ∷ []) ∷ (2 ∷ []) ∷ []) ∷ ((3 ∷ []) ∷ []) ∷ [] }),
)
sent_in_order = refl

calls_lem_example :
    Refines os 2 (calls_spec os 2 three ([], wire)) (calls os 2 three (opened os 2 peer wire))
calls_lem_example =
    calls_lem os 2 three peer wire (omega arith)
      (omega arith, (omega arith, (omega arith, (tt, tt))))

-- The last buffer of the third group.
index-to_u32_example : (index (to_u32 2 15) ≡ 15) × (to_u32 2 15 / recv_buf_group_size ≡ 2)
index-to_u32_example = index-to_u32 2 15 (omega arith) (omega arith)

from_u64-into_u64_example : from_u64 (into_u64 (UserData.recv 3)) ≡ UserData.recv 3
from_u64-into_u64_example = from_u64-into_u64 (UserData.recv 3) (omega arith)

read-Uses :
    (s : Wire) (ds : List (List ℕ × SocketAddr))
    → Uses (read s ds).0 (length ds) (length (read s ds).1.arrived)
read-Uses s [] = tt
read-Uses s (d ∷ ds) = omega arith

pub os_laws : OsLaws os
os_laws = record {
  send_ready = λ buf to s. omega arith;
  sendmmsg_ready = λ bufs to s. omega arith;
  recv-Uses = λ n s. read-Uses s s.arrived;
}
