-- ===== src/Net/IoUring.antt =====
-- src/net/socket2_io_uring.rs: the numbers by which the socket knows its buffers in the ring.
pub mod Ring
pub mod Socket
pub mod Slots
pub mod Sending
pub mod Lifetime
pub mod Receiving
pub mod Bounds
pub mod Store
pub mod Opening
pub mod Laws
use tiny_media_server.Prelude.{ℕ, ◌+◌, ◌*◌, ◌/◌, ◌%◌, ◌^◌, ◌<◌, ◌≡◌, nat_beq, if◌then◌else◌, arith}

abbrev pub recv_buf_group_size : ℕ
recv_buf_group_size = 16

-- A receive buffer's place in `read_bufs`, from its group and its index in the group; u32.
unfoldable pub to_u32 : ℕ → ℕ → ℕ
to_u32 group index = (group * recv_buf_group_size + index) % 2 ^ 32

-- u16
unfoldable pub index : ℕ → ℕ
index idx = idx % recv_buf_group_size % 2 ^ 16

pub data UserData : Type 0 where
  send : ℕ → UserData
  recv : ℕ → UserData
  provide_buffers : ℕ → UserData

-- `|` is `+` here: the tag's bit lies above the 32 bits of the index.
unfoldable pub into_u64 : UserData → ℕ
into_u64 (send idx) = idx
into_u64 (recv idx) = 0x0100000000 + idx
into_u64 (provide_buffers idx) = 0x0200000000 + idx

-- `>> 32` and the masks 0xffff and 0xffffffff.
unfoldable pub from_u64 : ℕ → UserData
from_u64 word =
    let tag = word / 2 ^ 32 in
    if nat_beq tag 1
    then recv (word % 2 ^ 16)
    else if nat_beq tag 2
    then provide_buffers (word % 2 ^ 32)
    else send (word % 2 ^ 32)

-- The index fits its machine type: u16 for a group, u32 for a buffer.
abbrev pub FitsWord : UserData → Type 0
FitsWord (send idx) = idx < 2 ^ 32
FitsWord (recv idx) = idx < 2 ^ 16
FitsWord (provide_buffers idx) = idx < 2 ^ 32

-- A user-data word decodes to what it encodes, if the index fits its machine type.
pub from_u64-into_u64 : (d : UserData) → FitsWord d → from_u64 (into_u64 d) ≡ d
unfolding from_u64 into_u64
from_u64-into_u64 (send idx) h = ground arith
from_u64-into_u64 (recv idx) h = ground arith
from_u64-into_u64 (provide_buffers idx) h = ground arith

-- From the number of a receive buffer both its index in its group, below 16, and its group, a u16,
-- can be read back.
pub index-to_u32 :
    (group idx : ℕ)
    → group < 2 ^ 16
    → idx < recv_buf_group_size
    → (index (to_u32 group idx) ≡ idx) × (to_u32 group idx / recv_buf_group_size ≡ group)
unfolding index to_u32
index-to_u32 group idx g i = omega arith
