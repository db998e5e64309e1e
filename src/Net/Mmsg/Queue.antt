-- ===== src/Net/Mmsg/Queue.antt =====
-- The queue of `UdpSocket2Mmsg` as a list of datagrams.
use tiny_media_server.Prelude.{
  ℕ, zero, suc, ◌+◌, ◌≤◌, ◌<◌, ◌≡◌, refl, List, [], ◌∷◌, ◌++◌, map, length, take, drop, All, true,
  Option, some, ok, arith, length-append, take-append, length-drop, >>=-eq-ok, leb, ok_injective,
}
use tiny_media_server.Prelude.SocketAddr.{SocketAddr}
use tiny_media_server.Net.Os.{OsSocket}
use tiny_media_server.Net.Mmsg.{Slot, UdpSocket2Mmsg, slice_to, update_at, fill, iovs}

abbrev pub IsFull : Slot → Type 0
IsFull b = length b.bytes ≡ 1500

pub leb-true : (n m : ℕ) → n ≤ m → leb n m ≡ true
leb-true n m h = ground arith

pub add_one : (n : ℕ) → n + 1 ≡ suc n
add_one n = omega arith

slice_to_append : (xs ys : List ℕ) → slice_to (length xs) (xs ++ ys) ≡ ok xs
unfolding slice_to
slice_to_append xs ys = rw (
  leb-true (length xs) (length (xs ++ ys)) (omega (arith, length-append xs ys)),
  take-append xs ys,
)

length_filled :
    (buf bytes : List ℕ)
    → length buf ≤ length bytes
    → length (buf ++ drop (length buf) bytes) ≡ length bytes
length_filled buf bytes h =
    omega (arith, length-append buf (drop (length buf) bytes), length-drop (length buf) bytes)

-- A datagram in the next free entry is the next one of `iovs`.
pub record Pushed (n : ℕ) (buf : List ℕ) (bufs : List Slot) (ps : List (List ℕ)) : Type 0 where
  pub next : List Slot
  pub updated : update_at n (fill buf) bufs ≡ ok next
  pub pushed : iovs (suc n) next ≡ ok (ps ++ buf ∷ [])
  pub same_length : length next ≡ length bufs
  pub full : All IsFull next

pub iovs-update_at :
    (n : ℕ) (buf : List ℕ) (bufs : List Slot) (ps : List (List ℕ))
    → iovs n bufs ≡ ok ps
    → n < length bufs
    → All IsFull bufs
    → length buf ≤ 1500
    → Pushed n buf bufs ps
unfolding iovs update_at fill
iovs-update_at n buf [] ps e h full small = absurd (omega (arith, h))
iovs-update_at zero buf (b ∷ bufs) ps e h full small =
    let room = leb-true (length buf) (length b.bytes) (omega (arith, full.0, small)) in
    record {
      next = record { bytes = buf ++ drop (length buf) b.bytes; len = length buf } ∷ bufs;
      updated = rw room;
      pushed = rw (← ok_injective e, slice_to_append buf (drop (length buf) b.bytes));
      same_length = omega arith;
      full = (omega (arith, full.0, small, length_filled buf b.bytes), full.1);
    }
iovs-update_at (suc n) buf (b ∷ bufs) ps e h full small =
    let (iov, e₁, e₂) = >>=-eq-ok (slice_to b.len b.bytes) _ e in
    let (rest, e₃, e₄) = >>=-eq-ok (iovs n bufs) _ e₂ in
    let p = iovs-update_at n buf bufs rest e₃ (omega (arith, h)) full.1 small in
    record {
      next = b ∷ p.next;
      updated = rw p.updated;
      pushed = rw (← ok_injective e₄, e₁, p.pushed);
      same_length = omega (arith, p.same_length);
      full = (full.0, p.full);
    }

-- The same of the destinations.
pub record Addressed (n : ℕ) (dest : SocketAddr) (addrs : List (Option SocketAddr)) : Type 0 where
  pub next : List (Option SocketAddr)
  pub updated : update_at n (λ _. ok (some dest)) addrs ≡ ok next
  pub addressed : take (suc n) next ≡ take n addrs ++ some dest ∷ []
  pub same_length : length next ≡ length addrs

pub take-update_at :
    (n : ℕ) (dest : SocketAddr) (addrs : List (Option SocketAddr))
    → n < length addrs
    → Addressed n dest addrs
unfolding update_at
take-update_at n dest [] h = absurd (omega (arith, h))
take-update_at zero dest (a ∷ addrs) h = record {
  next = some dest ∷ addrs;
  updated = refl;
  addressed = refl;
  same_length = omega arith;
}
take-update_at (suc n) dest (a ∷ addrs) h =
    let p = take-update_at n dest addrs (omega (arith, h)) in
    record {
      next = a ∷ p.next;
      updated = rw p.updated;
      addressed = rw p.addressed;
      same_length = omega (arith, p.same_length);
    }

abbrev pub payloads : List (List ℕ × SocketAddr) → List (List ℕ)
payloads = map (λ d. d.0)

abbrev pub destinations : List (List ℕ × SocketAddr) → List (Option SocketAddr)
destinations = map (λ d. some d.1)

pub payloads-append :
    (q : List (List ℕ × SocketAddr)) (buf : List ℕ) (dest : SocketAddr)
    → payloads (q ++ (buf, dest) ∷ []) ≡ payloads q ++ buf ∷ []
payloads-append [] buf dest = refl
payloads-append (d ∷ q) buf dest = rw (payloads-append q buf dest)

pub destinations-append :
    (q : List (List ℕ × SocketAddr)) (buf : List ℕ) (dest : SocketAddr)
    → destinations (q ++ (buf, dest) ∷ []) ≡ destinations q ++ some dest ∷ []
destinations-append [] buf dest = refl
destinations-append (d ∷ q) buf dest = rw (destinations-append q buf dest)

-- The socket holds these datagrams, in this order, and no more than `queue` of them.
pub record Queues (os : OsSocket) (queue : ℕ) (q : List (List ℕ × SocketAddr))
    (s : UdpSocket2Mmsg os) : Type 0 where
  pub count : s.queue_len ≡ length q
  pub fits : length q ≤ queue
  pub payload : iovs s.queue_len s.bufs ≡ ok (payloads q)
  pub to : take s.queue_len s.addrs ≡ destinations q
  pub bufs : length s.bufs ≡ queue
  pub addrs : length s.addrs ≡ queue
  pub full : All IsFull s.bufs
