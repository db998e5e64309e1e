-- ===== src/Net/Wire.antt =====
-- The datagrams that src/net/socket2.rs and src/net/socket2_mmsg.rs put on the wire.
use mathlib.Core.List.{append_assoc, append-nil}
use tiny_media_server.Prelude.{
  ℕ, ◌<◌, ◌≡◌, refl, sym, ap, ◌∙◌, List, [], ◌∷◌, ◌++◌, All, length, Bool, true, false, ◌&&◌,
  Option, none, some, Ends, Ends-weaken, Bool-cases, Option-cases, inl, inr, arith, nat_beq,
  if◌then◌else◌,
}
use tiny_media_server.Prelude.SocketAddr.{SocketAddr}
use tiny_media_server.Net.Os.{OsSocket}
use tiny_media_server.Net.Plain
use tiny_media_server.Net.Plain.{UdpSocket2}
use tiny_media_server.Net.Mmsg.{opened}
use tiny_media_server.Net.Mmsg.Queue.{payloads, destinations}
use tiny_media_server.Net.Mmsg.Refinement.{
  Call, add, commit, IsSmall, Abstract, call_spec, calls_spec, calls, calls_lem,
}

-- What a socket has sent, in order. `takes_all` tells whether sendmmsg sends every datagram of a
-- batch: it may stop early.
pub record Wire (os : OsSocket) : Type 0 where
  pub wire : os.UdpSocket → List (List ℕ × SocketAddr)
  pub takes_all : List (List ℕ × SocketAddr) → os.UdpSocket → Bool
  pub wire-send_to :
      (buf : List ℕ) (to : SocketAddr) (n : ℕ) (s : os.UdpSocket)
      → (os.send_to buf to s).0 ≡ some n
      → wire (os.send_to buf to s).1 ≡ wire s ++ (buf, to) ∷ []
  pub wire-sendmmsg :
      (q : List (List ℕ × SocketAddr)) (s : os.UdpSocket)
      → takes_all q s ≡ true
      → ((os.sendmmsg (payloads q) (destinations q) s).0 ≡ true)
        × (wire (os.sendmmsg (payloads q) (destinations q) s).1 ≡ wire s ++ q)

-- The datagrams of the calls.
abbrev pub datagrams : List Call → List (List ℕ × SocketAddr)
datagrams [] = []
datagrams (add buf dest ∷ cs) = (buf, dest) ∷ datagrams cs
datagrams (commit ∷ cs) = datagrams cs

both : (a b : Bool) → a && b ≡ true → (a ≡ true) × (b ≡ true)
both a b e = ground (arith, e)

module _ (os : OsSocket) (w : Wire os) where
  open w use {wire, takes_all}

  -- The plain socket at the same calls.
  abbrev pub plain_calls : List Call → UdpSocket2 os → UdpSocket2 os
  plain_calls [] s = s
  plain_calls (add buf dest ∷ cs) s = plain_calls cs (Plain.add_send_to os buf dest s).1
  plain_calls (commit ∷ cs) s = plain_calls cs s

  abbrev pub is_sent : Option ℕ → Bool
  is_sent none = false
  is_sent (some n) = true

  -- No call of the plain socket fails.
  abbrev pub plain_sent : List Call → UdpSocket2 os → Bool
  plain_sent [] s = true
  plain_sent (add buf dest ∷ cs) s =
      is_sent (Plain.add_send_to os buf dest s).0
      && plain_sent cs (Plain.add_send_to os buf dest s).1
  plain_sent (commit ∷ cs) s = plain_sent cs s

  plain-wire :
      (cs : List Call) (s : UdpSocket2 os)
      → plain_sent cs s ≡ true
      → wire (plain_calls cs s).socket ≡ wire s.socket ++ datagrams cs
  unfolding Plain.add_send_to
  plain-wire [] s sent = sym (append-nil (wire s.socket))
  plain-wire (add buf dest ∷ cs) s sent =
      let next : UdpSocket2 os = (Plain.add_send_to os buf dest s).1 in
      let (now, later) =
        both (is_sent (os.send_to buf dest s.socket).0) (plain_sent cs next) sent in
      elim (Option-cases (os.send_to buf dest s.socket).0) [
        | inl failed ↦ let wrong = rw failed at now in cc
        | inr (n, e) ↦
            simp (plain-wire cs next later, w.wire-send_to buf dest n s.socket e, append_assoc)
      ]
  plain-wire (commit ∷ cs) s sent = plain-wire cs s sent

  module _ (queue : ℕ) where
    -- Each batch is sent as a whole.
    abbrev pub call_sent : Call → Abstract os queue → Bool
    call_sent (add buf dest) (q, s) = if nat_beq (length q) queue then takes_all q s else true
    call_sent commit (q, s) = takes_all q s

    abbrev pub all_sent : List Call → Abstract os queue → Bool
    all_sent [] a = true
    all_sent (c ∷ cs) a = call_sent c a && all_sent cs (call_spec os queue c a).1

    -- What has been sent, and what is queued.
    abbrev on_way : Abstract os queue → List (List ℕ × SocketAddr)
    on_way (q, s) = wire s ++ q

    call-on_way :
        (c : Call) (a : Abstract os queue)
        → call_sent c a ≡ true
        → on_way (call_spec os queue c a).1 ≡ on_way a ++ datagrams (c ∷ [])
    call-on_way (add buf dest) (q, s) sent = elim (Bool-cases (nat_beq (length q) queue)) [
      | inl full ↦
          let (ok_, sent') = w.wire-sendmmsg q s (rw full at sent) in rw (full, ok_) (rw sent' refl)
      | inr room ↦ rw room (sym (append_assoc (wire s) q ((buf, dest) ∷ [])))
    ]
    call-on_way commit (q, s) sent = simp ((w.wire-sendmmsg q s sent).1, append-nil)

    datagrams-cons :
        (c : Call) (cs : List Call) → datagrams (c ∷ cs) ≡ datagrams (c ∷ []) ++ datagrams cs
    datagrams-cons (add buf dest) cs = refl
    datagrams-cons commit cs = refl

    calls-on_way :
        (cs : List Call) (a : Abstract os queue)
        → all_sent cs a ≡ true
        → on_way (calls_spec os queue cs a).1 ≡ on_way a ++ datagrams cs
    calls-on_way [] a sent = sym (append-nil (on_way a))
    calls-on_way (c ∷ cs) a sent =
        let (now, later) = both (call_sent c a) (all_sent cs (call_spec os queue c a).1) sent in
        calls-on_way cs (call_spec os queue c a).1 later
        ∙ ap (λ x. x ++ datagrams cs) (call-on_way c a now)
        ∙ append_assoc (on_way a) (datagrams (c ∷ [])) (datagrams cs)
        ∙ ap (λ x. on_way a ++ x) (sym (datagrams-cons c cs))

    -- A commit leaves nothing in the queue.
    last_commit :
        (cs : List Call) (a : Abstract os queue)
        → (calls_spec os queue (cs ++ commit ∷ []) a).1.0 ≡ []
    last_commit [] a = refl
    last_commit (c ∷ cs) a = last_commit cs (call_spec os queue c a).1

    datagrams-commit : (cs : List Call) → datagrams (cs ++ commit ∷ []) ≡ datagrams cs
    datagrams-commit [] = refl
    datagrams-commit (add buf dest ∷ cs) = rw (datagrams-commit cs)
    datagrams-commit (commit ∷ cs) = datagrams-commit cs

    All-commit : (cs : List Call) → All IsSmall cs → All IsSmall (cs ++ commit ∷ [])
    All-commit [] small = (tt, tt)
    All-commit (c ∷ cs) small = (small.0, All-commit cs small.1)

    calls-wire :
        (cs : List Call) (socket : os.UdpSocket)
        → all_sent (cs ++ commit ∷ []) ([], socket) ≡ true
        → wire (calls_spec os queue (cs ++ commit ∷ []) ([], socket)).1.1
          ≡ wire socket ++ datagrams cs
    calls-wire cs socket sent =
        let final : Abstract os queue = (calls_spec os queue (cs ++ commit ∷ []) ([], socket)).1 in
        sym (append-nil (wire final.1))
        ∙ ap (λ q. wire final.1 ++ q) (sym (last_commit cs ([], socket)))
        ∙ calls-on_way (cs ++ commit ∷ []) ([], socket) sent
        ∙ rw (append-nil (wire socket), datagrams-commit cs) refl

    abbrev pub plain : SocketAddr → os.UdpSocket → UdpSocket2 os
    plain local_addr socket = record { socket = socket; local_addr = local_addr }

    -- Over an operating system that logs what it sends, if a queue has at least one entry, no
    -- datagram is longer than 1500 bytes, each batch of the sendmmsg socket is sent as a whole and
    -- no send of the plain socket fails, then any calls of add_send_to and commit_send_to with a
    -- commit_send_to at the end put the same datagrams on the wire, in the same order, whether
    -- they are made on a new sendmmsg socket or on a plain one.
    pub same_wire :
        (cs : List Call) (local_addr : SocketAddr) (socket : os.UdpSocket)
        → 0 < queue
        → All IsSmall cs
        → all_sent (cs ++ commit ∷ []) ([], socket) ≡ true
        → plain_sent cs (plain local_addr socket) ≡ true
        → Ends
            (λ y. wire y.1.socket ≡ wire (plain_calls cs (plain local_addr socket)).socket)
            (λ _. ⊥)
            (calls os queue (cs ++ commit ∷ []) (opened os queue local_addr socket))
    same_wire cs local_addr socket some_queue small sent plainly =
        Ends-weaken _ _ (λ _. ⊥) (λ _. ⊥)
          (calls os queue (cs ++ commit ∷ []) (opened os queue local_addr socket))
          (calls_lem os queue (cs ++ commit ∷ []) local_addr socket some_queue
            (All-commit cs small))
          (λ y k.
            ap wire k.1.1
            ∙ calls-wire cs socket sent
            ∙ sym (plain-wire cs (plain local_addr socket) plainly))
          (λ p k. k)
