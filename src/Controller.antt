-- ===== src/Controller.antt =====
-- src/controller.rs: `Controller`. The channels are crossbeam's, a parameter; what a worker's thread
-- does is in Server.
pub mod Fairness
use native.Mathlib.Nat.{mod-lt}
use tiny_media_server.Prelude.{
  ℕ, zero, suc, ◌+◌, ◌%◌, ◌<◌, ◌≡◌, refl, false, List, [], ◌∷◌, length, get_elem?, Bool, Option,
  none, some, nat_beq, if◌then◌else◌, Outcome, ok, halt, ◌>>=◌, Ends, Ends-bind, unexpected_event,
  no_worker, arith,
}
use tiny_media_server.Io.{IoEvent, http_request, udp_socket_recv, IoAction, HttpRequest}
use tiny_media_server.Net.Mmsg.{update_at}

-- The bounded channels: a worker's queue of events, and the queue of the workers' actions.
-- `waiting` counts the actions in a queue.
pub record Channels : Type 1 where
  pub Sender : Type 0
  pub Receiver : Type 0
  pub try_send : IoEvent → Sender → Bool × Sender
  pub try_recv : Receiver → Option IoAction × Receiver
  pub waiting : Receiver → ℕ

-- `joins` holds the sender of each slot; joining the threads is left out.
pub record Controller (ch : Channels) : Type 0 where
  pub count : ℕ
  pub joins : List ch.Sender
  pub worker_recv : ch.Receiver

module _ (ch : Channels) where
  -- A full channel loses the request: the error is only logged.
  unfoldable pub input : IoEvent → Controller ch → Outcome (Controller ch)
  input (http_request req) c =
      if nat_beq (length c.joins) 0
      then halt no_worker
      else (update_at (c.count % length c.joins) (λ s. ok (ch.try_send (http_request req) s).1)
            c.joins
          >>= λ joins. ok (record c { joins = joins; count = c.count + 1 }))
  input (udp_socket_recv from to buf) c = halt unexpected_event

  unfoldable pub pop_action : Controller ch → Option IoAction × Controller ch
  pop_action c =
      let (action, recv) = ch.try_recv c.worker_recv in (action, record c { worker_recv = recv })

-- Entry `i`, and no other, is what `f` makes of it.
abbrev pub applied {ℓ} : {A : Type ℓ} → (A → A) → Bool → Option A → Option A
applied f here none = none
applied f here (some x) = some (if here then f x else x)

nat_beq-suc-zero : (i : ℕ) → nat_beq (suc i) 0 ≡ false
nat_beq-suc-zero i = ground arith

nat_beq-zero-suc : (j : ℕ) → nat_beq 0 (suc j) ≡ false
nat_beq-zero-suc j = ground arith

nat_beq-suc-suc : (i j : ℕ) → nat_beq (suc i) (suc j) ≡ nat_beq i j
nat_beq-suc-suc i j = ground arith

module _ {A : Type 0} (f : A → A) where
  applied_elsewhere : (o : Option A) → applied f false o ≡ o
  applied_elsewhere none = refl
  applied_elsewhere (some x) = refl

  -- One entry of `ys` is `f` of that of `xs`.
  abbrev pub IsApplied : ℕ → ℕ → List A → List A → Type 0
  IsApplied i j xs ys =
      (length ys ≡ length xs) × (get_elem? ys j ≡ applied f (nat_beq i j) (get_elem? xs j))

  IsApplied-suc :
      (i j : ℕ) (x : A) (xs ys : List A)
      → ((k : ℕ) → IsApplied i k xs ys)
      → IsApplied (suc i) j (x ∷ xs) (x ∷ ys)
  IsApplied-suc i zero x xs ys h = (omega (arith, (h 0).0), rw (nat_beq-suc-zero i))
  IsApplied-suc i (suc j) x xs ys h = (omega (arith, (h j).0), rw (nat_beq-suc-suc i j) (h j).1)

  update_at-IsApplied :
      (i : ℕ) (xs : List A)
      → i < length xs
      → Ends (λ ys. (j : ℕ) → IsApplied i j xs ys) (λ _. ⊥) (update_at i (λ x. ok (f x)) xs)
  unfolding update_at
  update_at-IsApplied i [] lt = absurd (omega (arith, lt))
  update_at-IsApplied zero (x ∷ xs) lt = λ j. (
    refl,
    elim j as (λ k. get_elem? (f x ∷ xs) k ≡ applied f (nat_beq 0 k) (get_elem? (x ∷ xs) k)) [
      | zero ↦ refl
      | suc k ↦ rw (nat_beq-zero-suc k, applied_elsewhere (get_elem? xs k))
    ],
  )
  update_at-IsApplied (suc i) (x ∷ xs) lt =
      Ends-bind (λ ys. (j : ℕ) → IsApplied i j xs ys)
        (λ ys. (j : ℕ) → IsApplied (suc i) j (x ∷ xs) ys) (λ _. ⊥) (update_at i (λ x. ok (f x)) xs)
        (λ ys. ok (x ∷ ys)) (update_at-IsApplied i xs (omega (arith, lt)))
        (λ ys _ h j. IsApplied-suc i j x xs ys h)

module _ (ch : Channels) where
  -- With at least one worker, an HTTP request is put on the channel of the worker whose index is
  -- the count modulo the number of workers and on no other, the count grows by one, and input does
  -- not panic.
  pub input_lem :
      (req : HttpRequest) (c : Controller ch)
      → 0 < length c.joins
      → Ends
          (λ c'.
            (c'.count ≡ c.count + 1)
            × ((j : ℕ)
                → IsApplied
                    (λ s. (ch.try_send (http_request req) s).1)
                    (c.count % length c.joins)
                    j
                    c.joins
                    c'.joins))
          (λ _. ⊥)
          (input ch (http_request req) c)
  unfolding input
  input_lem req c workers =
      let some_worker : nat_beq (length c.joins) 0 ≡ false = ground (arith, workers) in
      let send = λ (s : ch.Sender). (ch.try_send (http_request req) s).1 in
      rw some_worker (
        Ends-bind (λ ys. (j : ℕ) → IsApplied send (c.count % length c.joins) j c.joins ys) _
          (λ _. ⊥) (update_at (c.count % length c.joins) (λ s. ok (send s)) c.joins) _
          (update_at-IsApplied send (c.count % length c.joins) c.joins (mod-lt c.count workers))
          (λ ys _ h. (refl, h)))
