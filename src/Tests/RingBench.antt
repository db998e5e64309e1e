-- ===== src/Tests/RingBench.antt =====
-- A ring that completes each submitted entry once, receives included, with the laws of the
-- parameters of src/net/socket2_io_uring.rs.
use mathlib.Core.List.{append_assoc, append-nil}
use tiny_media_server.Prelude.{
  ℕ, ◌+◌, ◌<◌, ◌≡◌, refl, sym, ap, List, [], ◌∷◌, ◌++◌, All, Bool, true, false, Option, none, some,
  length, arith, some_injective, ◌≤◌,
}
use tiny_media_server.Tasks.Roles.{Uses}
use tiny_media_server.Net.IoUring.{UserData, send, recv, from_u64, recv_buf_group_size}
use tiny_media_server.Net.IoUring.Ring.{
  IoUring, RingLaws, Entry, send_msg_zc, provide, recv_msg_multi, ends_send, sent_by, IsLabelled,
}
use tiny_media_server.Net.IoUring.Receiving.{ReadLaws, label}
use tiny_media_server.Net.IoUring.Receiving.Handed.{PushLaws}
use tiny_media_server.Net.IoUring.Store.{StoreLaws}
use tiny_media_server.Tests.Bench.{peer}

-- The completions that were read, those that wait, and the entries that are not submitted: user
-- data, and whether there are more; and all the entries so far.
pub record Ring : Type 0 where
  pub read : List (ℕ × Bool)
  pub waiting : List (ℕ × Bool)
  pub pushed : List (ℕ × Bool)
  pub log : List Entry

abbrev pub empty : Ring
empty = record { read = []; waiting = []; pushed = []; log = [] }

abbrev pub lasts : Entry → Bool
lasts (send_msg_zc i u) = false
lasts (provide g i u) = true
lasts (recv_msg_multi g u) = true

abbrev pub push : Entry → Ring → Option Ring
push e r = some (record r { pushed = r.pushed ++ (label e, lasts e) ∷ []; log = r.log ++ e ∷ [] })

abbrev pub submit : Ring → Ring
submit r = record r { waiting = r.waiting ++ r.pushed; pushed = [] }

abbrev pub next_of : Ring → List (ℕ × Bool) → Option (ℕ × Bool) × Ring
next_of r [] = (none, r)
next_of r (x ∷ q) = (some x, record r { read = r.read ++ x ∷ []; waiting = q })

abbrev pub next : Ring → Option (ℕ × Bool) × Ring
next r = next_of r r.waiting

abbrev pub flying : ℕ → List (ℕ × Bool) → ℕ
flying j [] = 0
flying j (x ∷ q) = ends_send (from_u64 x.0) x.1 j + flying j q

abbrev pub words : List (ℕ × Bool) → List ℕ
words [] = []
words (x ∷ q) = x.0 ∷ words q

abbrev pub ring : IoUring
ring = record {
  Ring = Ring;
  Flags = Bool;
  push = push;
  submit = λ bufs r. (true, submit r);
  next_completion = next;
  more = λ f. f;
  buffer_select = λ f. some 5;
  read_buf = λ idx r. some (7 ∷ [], peer);
  in_flight = λ j r. flying j r.waiting + flying j r.pushed;
  completed = λ r. length r.waiting;
}

ends_more : (d : UserData) (j : ℕ) → ends_send d true j ≡ 0
ends_more (send i) j = refl
ends_more (recv g) j = refl
ends_more (UserData.provide_buffers i) j = refl

ends_entry :
    (e : Entry) (j : ℕ) → IsLabelled e → ends_send (from_u64 (label e)) (lasts e) j ≡ sent_by e j
ends_entry (send_msg_zc i u) j l = rw l refl
ends_entry (provide g i u) j l = ends_more (from_u64 u) j
ends_entry (recv_msg_multi g u) j l = ends_more (from_u64 u) j

flying-append : (j : ℕ) (p q : List (ℕ × Bool)) → flying j (p ++ q) ≡ flying j p + flying j q
flying-append j [] q = omega arith
flying-append j (x ∷ p) q = omega (arith, flying-append j p q)

words-append : (p q : List (ℕ × Bool)) → words (p ++ q) ≡ words p ++ words q
words-append [] q = refl
words-append (x ∷ p) q = rw (words-append p q)

push-flying :
    (e : Entry) (r r' : Ring) (j : ℕ)
    → IsLabelled e
    → push e r ≡ some r'
    → flying j r'.waiting + flying j r'.pushed
      ≡ flying j r.waiting + flying j r.pushed + sent_by e j
push-flying e r r' j l h =
    rw (← some_injective h)
      (omega (arith, flying-append j r.pushed ((label e, lasts e) ∷ []), ends_entry e j l))

next-flying :
    (r : Ring) (q : List (ℕ × Bool)) (u : ℕ) (f : Bool) (j : ℕ)
    → (next_of r q).0 ≡ some (u, f)
    → flying j q ≡ ends_send (from_u64 u) f j + flying j (next_of r q).1.waiting
next-flying r [] u f j h = cc
next-flying r (x ∷ q) u f j h =
    ap (λ o. elim o [ none ↦ 0 | some y ↦ ends_send (from_u64 y.0) y.1 j + flying j q ]) h

next-pushed : (r : Ring) (q : List (ℕ × Bool)) → (next_of r q).1.pushed ≡ r.pushed
next-pushed r [] = refl
next-pushed r (x ∷ q) = refl

next-idle : (r : Ring) (q : List (ℕ × Bool)) → (next_of r q).0 ≡ none → (next_of r q).1 ≡ r
next-idle r [] h = refl
next-idle r (x ∷ q) h = cc

next-Uses :
    (r : Ring) (q : List (ℕ × Bool))
    → Uses (next_of r q).0 (length q) (length (next_of r q).1.waiting)
next-Uses r [] = tt
next-Uses r (x ∷ q) = omega arith

pub ring_laws : RingLaws ring
ring_laws = record {
  push_in_flight = push-flying;
  submit_in_flight = λ bufs r j. omega (arith, flying-append j r.waiting r.pushed);
  next_in_flight = λ r u f j e.
      omega (arith, next-flying r r.waiting u f j e, ap (flying j) (next-pushed r r.waiting));
  next_idle = λ r j e.
      ap (λ (x : Ring). flying j x.waiting + flying j x.pushed) (sym (next-idle r r.waiting e));
  next-Uses = λ r. next-Uses r r.waiting;
}

abbrev pub labels : Ring → List ℕ
labels r = words r.read ++ (words r.waiting ++ words r.pushed)

pub push-labels :
    (e : Entry) (r r' : Ring) → push e r ≡ some r' → labels r' ≡ labels r ++ label e ∷ []
push-labels e r r' h =
    rw (← some_injective h) (simp (words-append r.pushed ((label e, lasts e) ∷ []), append_assoc))

pub submit-labels : (r : Ring) → labels (submit r) ≡ labels r
submit-labels r = simp (words-append r.waiting r.pushed, append-nil)

pub next-labels :
    (r : Ring) (q : List (ℕ × Bool)) → r.waiting ≡ q → labels (next_of r q).1 ≡ labels r
next-labels r [] e = refl
next-labels r (x ∷ q) e = rw e (simp (words-append r.read (x ∷ []), append_assoc))

All-second : (P : ℕ → Type 0) (xs ys : List ℕ) → All P (xs ++ ys) → All P ys
All-second P [] ys h = h
All-second P (x ∷ xs) ys h = All-second P xs ys h.1

pub next-label :
    (r : Ring) (q : List (ℕ × Bool)) (u : ℕ) (f : Bool)
    → (next_of r q).0 ≡ some (u, f)
    → (P : ℕ → Type 0) → All P (words r.read ++ (words q ++ words r.pushed))
    → P u
next-label r [] u f e P h = cc
next-label r (x ∷ q) u f e P h =
    let here = (All-second P (words r.read) (x.0 ∷ words q ++ words r.pushed) h).0 in
    rw (some_injective e) at here

pub five_below : (idx : ℕ) → some 5 ≡ some idx → idx < recv_buf_group_size
five_below idx e = rw (← some_injective e) (omega arith)

abbrev pub read_laws : ReadLaws ring
read_laws = record {
  labels = labels;
  push_labels = push-labels;
  submit_labels = λ bufs r. submit-labels r;
  next_labels = λ r. next-labels r r.waiting refl;
  next_label = λ r u f e. next-label r r.waiting u f e;
  selected = λ r u f group idx e d s. five_below idx s;
}

push-completed :
    (e : Entry) (r r' : Ring) → push e r ≡ some r' → length r'.waiting ≤ length r.waiting
push-completed e r r' h = rw (← some_injective h) (omega arith)

pub store_laws : StoreLaws ring
store_laws = record {
  push_completed = push-completed;
  idle_completed =
      λ r e. omega (arith, ap (λ (x : Ring). length x.waiting) (next-idle r r.waiting e));
}

abbrev pub push_laws : PushLaws ring
push_laws = record {
  pushed = λ r. r.log;
  push_pushed = λ e r r' h. ap (λ (x : Ring). x.log) (sym (some_injective h));
  submit_pushed = λ bufs r. refl;
}
