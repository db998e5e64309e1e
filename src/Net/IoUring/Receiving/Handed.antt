-- ===== src/Net/IoUring/Receiving/Handed.antt =====
-- What `prepare` of src/net/socket2_io_uring.rs hands to the kernel.
use tiny_media_server.Prelude.{
  some, ℕ, zero, suc, ◌+◌, ◌*◌, ◌/◌, ◌%◌, ◌≡◌, List, [], ◌∷◌, ◌++◌, map,
}
use tiny_media_server.Prelude.SocketAddr.{SocketAddr}
use tiny_media_server.Net.IoUring.{recv, provide_buffers, into_u64}
use tiny_media_server.Net.IoUring.Ring.{
  NetPacket, IoUring, RingLaws, Entry, provide, recv_msg_multi,
}
use tiny_media_server.Net.IoUring.Socket.{range}
use tiny_media_server.Net.IoUring.Receiving.{ReadLaws}

-- `pushed` lists the entries so far.
pub record PushLaws (io : IoUring) : Type 0 where
  pub pushed : io.Ring → List Entry
  pub push_pushed :
      (e : Entry) (r r' : io.Ring) → io.push e r ≡ some r' → pushed r' ≡ pushed r ++ e ∷ []
  pub submit_pushed : (bufs : List NetPacket) (r : io.Ring) → pushed (io.submit bufs r).1 ≡ pushed r

-- A buffer is provided at its place in its group of 16, under its own user data.
abbrev pub buffer_entry : ℕ → Entry
buffer_entry idx = provide (idx / 16) (idx % 16) (into_u64 (provide_buffers idx))

-- The receive of a group.
abbrev pub group_entry : ℕ → Entry
group_entry group = recv_msg_multi group (into_u64 (recv group))

-- The entries of `n` groups from `from`: 16 buffers and the receive of each.
abbrev pub group_entries : ℕ → ℕ → List Entry
group_entries from zero = []
group_entries from (suc n) =
    map buffer_entry (range (from * 16) 16) ++ group_entry from ∷ group_entries (from + 1) n

module _ (io : IoUring) (laws : RingLaws io) (reads : ReadLaws io) (pushes : PushLaws io)
    (recv_queue : ℕ) where
  -- The entries of the ring, and these after them.
  abbrev After : io.Ring → List Entry → io.Ring → Type 0
  After r es r' = pushes.pushed r' ≡ pushes.pushed r ++ es

  -- The 16 buffers of a group, and its receive.
  abbrev entries_of : ℕ → List Entry
  entries_of group = map buffer_entry (range (group * 16) 16) ++ group_entry group ∷ []
