-- ===== src/Net/IoUring/Ring.antt =====
-- The crate io_uring and the kernel behind it: a parameter of the socket.
use tiny_media_server.Prelude.{one_if, ℕ, ◌+◌, ◌≡◌, List, Bool, false, Option, none, some, nat_beq}
use tiny_media_server.Prelude.SocketAddr.{SocketAddr}
use tiny_media_server.Tasks.Roles.{Uses}
use tiny_media_server.Net.IoUring.{UserData, send, from_u64}

-- A packet that the kernel reads through the pointers of its msghdr.
pub record NetPacket : Type 0 where
  pub buf : List ℕ
  pub addr : SocketAddr
  pub iov_len : ℕ

-- The entries that the socket pushes; the last number is the user data. The first number of
-- `send_msg_zc` says which packet the entry points to.
pub data Entry : Type 0 where
  send_msg_zc : ℕ → ℕ → Entry
  provide : ℕ → ℕ → ℕ → Entry
  recv_msg_multi : ℕ → ℕ → Entry

-- `read_buf` parses a receive buffer, which only the kernel writes. `in_flight` counts the sends
-- of a packet that are not completed, `completed` the completions that wait to be read.
pub record IoUring : Type 1 where
  pub Ring : Type 0
  pub Flags : Type 0
  pub push : Entry → Ring → Option Ring
  pub submit : List NetPacket → Ring → Bool × Ring
  pub next_completion : Ring → Option (ℕ × Flags) × Ring
  pub more : Flags → Bool
  pub buffer_select : Flags → Option ℕ
  pub read_buf : ℕ → Ring → Option (List ℕ × SocketAddr)
  pub in_flight : ℕ → Ring → ℕ
  pub completed : Ring → ℕ

-- The last completion of a send of packet `j`.
abbrev pub ends_send : UserData → Bool → ℕ → ℕ
ends_send (send i) false j = one_if (nat_beq i j)
ends_send _ _ j = 0

abbrev pub sent_by : Entry → ℕ → ℕ
sent_by (send_msg_zc i u) j = one_if (nat_beq i j)
sent_by _ j = 0

-- An entry for packet `i` has user data that says so.
abbrev pub IsLabelled : Entry → Type 0
IsLabelled (send_msg_zc i u) = from_u64 u ≡ send i
IsLabelled _ = Unit

-- A completion carries the user data of its entry, and the last one for an entry says that there
-- are no more.
pub record RingLaws (io : IoUring) : Type 0 where
  pub push_in_flight :
      (e : Entry) (r r' : io.Ring) (j : ℕ)
      → IsLabelled e
      → io.push e r ≡ some r'
      → io.in_flight j r' ≡ io.in_flight j r + sent_by e j
  pub submit_in_flight :
      (bufs : List NetPacket) (r : io.Ring) (j : ℕ)
      → io.in_flight j (io.submit bufs r).1 ≡ io.in_flight j r
  pub next_in_flight :
      (r : io.Ring) (u : ℕ) (f : io.Flags) (j : ℕ)
      → (io.next_completion r).0 ≡ some (u, f)
      → io.in_flight j r
        ≡ ends_send (from_u64 u) (io.more f) j + io.in_flight j (io.next_completion r).1
  pub next_idle :
      (r : io.Ring) (j : ℕ)
      → (io.next_completion r).0 ≡ none
      → io.in_flight j r ≡ io.in_flight j (io.next_completion r).1
  pub next-Uses :
      (r : io.Ring)
      → Uses (io.next_completion r).0 (io.completed r) (io.completed (io.next_completion r).1)
