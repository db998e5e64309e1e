-- ===== src/Prelude/Outcomes.antt =====
-- What a call of the program comes to: a value, a halt of its thread, or (in the model alone) a
-- loop that has used up its fuel.
use mathlib.Core.Path.{◌≡◌, refl}

-- What a thread halts at. The first two are waits that do not end: to broadcast on a bus that is
-- full for one of its readers, which the thread itself may be, and to send on a channel that is
-- full. Each of the others is a panic, one for each `panic!`, `todo!`, `unwrap` and `expect` of the
-- modelled code.
pub data Halt : Type 0 where
  full_bus : Halt
  full_channel : Halt
  unexpected_event : Halt
  unimplemented_input : Halt
  unparsed_udp : Halt
  no_video_stream : Halt
  no_candidate : Halt
  unparsed_offer : Halt
  refused_offer : Halt
  unparsed_stun : Halt
  missing_task : Halt
  disconnected_channel : Halt
  missing_request : Halt
  datagram_too_long : Halt
  ring_full : Halt
  out_of_bounds : Halt
  no_buffer_id : Halt
  unparsed_packet : Halt
  refused_submit : Halt
  no_worker : Halt
  missing_file : Halt
  unreadable_body : Halt
  bad_header : Halt
  refused_response : Halt
  no_socket : Halt
  unresolved_addr : Halt
  refused_bind : Halt
  refused_send_buffer : Halt
  refused_recv_buffer : Halt
  refused_nonblocking : Halt
  no_local_addr : Halt
  no_socket_addr : Halt
  uneven_groups : Halt
  no_ring : Halt
  unsupported_opcode : Halt
  no_server : Halt

pub data Outcome {ℓ} (A : Type ℓ) : Type ℓ where
  ok : A → Outcome A
  halt : Halt → Outcome A
  out_of_fuel : Outcome A

infixl 5 ◌>>=◌
abbrev pub ◌>>=◌ {ℓ κ} : {A : Type ℓ} {B : Type κ} → Outcome A → (A → Outcome B) → Outcome B
ok a >>= f = f a
halt p >>= f = halt p
out_of_fuel >>= f = out_of_fuel

-- The call ends: with a value that satisfies `P`, or with a halt that satisfies `Q`.
abbrev pub Ends {ℓ} : {A : Type ℓ} → (A → Type 0) → (Halt → Type 0) → Outcome A → Type 0
Ends P Q (ok a) = P a
Ends P Q (halt p) = Q p
Ends P Q out_of_fuel = ⊥

module _ {ℓ κ} {A : Type ℓ} {B : Type κ} where
  pub Ends-bind :
      (P : A → Type 0) (R : B → Type 0) (Q : Halt → Type 0) (r : Outcome A) (f : A → Outcome B)
      → Ends P Q r
      → ((a : A) → r ≡ ok a → P a → Ends R Q (f a))
      → Ends R Q (r >>= f)
  Ends-bind P R Q (ok a) f h k = k a refl h
  Ends-bind P R Q (halt p) f h k = h
  Ends-bind P R Q out_of_fuel f h k = absurd h

pub Ends-weaken {ℓ} :
    {A : Type ℓ} (P R : A → Type 0) (Q S : Halt → Type 0) (r : Outcome A)
    → Ends P Q r
    → ((a : A) → P a → R a)
    → ((p : Halt) → Q p → S p)
    → Ends R S r
Ends-weaken P R Q S (ok a) h k l = k a h
Ends-weaken P R Q S (halt p) h k l = l p h
Ends-weaken P R Q S out_of_fuel h k l = absurd h

-- What a call that ends returns, by the equation that says so.
pub Ends-eq {ℓ} :
    {A : Type ℓ} (P R : A → Type 0) (Q : Halt → Type 0) (r : Outcome A)
    → Ends P Q r
    → ((a : A) → r ≡ ok a → R a)
    → Ends R Q r
Ends-eq P R Q (ok a) h k = k a refl
Ends-eq P R Q (halt p) h k = h
Ends-eq P R Q out_of_fuel h k = h

-- If the call returns a value, the value satisfies `P`.
abbrev pub Yields {ℓ} : {A : Type ℓ} → (A → Type 0) → Outcome A → Type 0
Yields P (ok a) = P a
Yields P (halt p) = Unit
Yields P out_of_fuel = Unit

pub Yields-any {ℓ} : {A : Type ℓ} (r : Outcome A) → Yields (λ _. Unit) r
Yields-any (ok a) = tt
Yields-any (halt p) = tt
Yields-any out_of_fuel = tt

pub Yields-bind {ℓ κ} :
    {A : Type ℓ} {B : Type κ} (P : A → Type 0) (R : B → Type 0) (r : Outcome A) (f : A → Outcome B)
    → Yields P r
    → ((a : A) → P a → Yields R (f a))
    → Yields R (r >>= f)
Yields-bind P R (ok a) f h k = k a h
Yields-bind P R (halt p) f h k = tt
Yields-bind P R out_of_fuel f h k = tt

pub Yields-weaken {ℓ} :
    {A : Type ℓ} (P R : A → Type 0) (r : Outcome A)
    → Yields P r
    → ((a : A) → P a → R a)
    → Yields R r
Yields-weaken P R (ok a) h k = k a h
Yields-weaken P R (halt p) h k = tt
Yields-weaken P R out_of_fuel h k = tt

pub Ends-Yielding {ℓ} :
    {A : Type ℓ} (P : A → Type 0) (Q : Halt → Type 0) (r : Outcome A) → Ends P Q r → Yields P r
Ends-Yielding P Q (ok a) h = h
Ends-Yielding P Q (halt p) h = tt
Ends-Yielding P Q out_of_fuel h = tt

-- A call that ends and yields: both of what returns.
pub Ends-Yields {ℓ} :
    {A : Type ℓ} (P R : A → Type 0) (Q : Halt → Type 0) (r : Outcome A)
    → Ends P Q r
    → Yields R r
    → Ends (λ a. P a × R a) Q r
Ends-Yields P R Q (ok a) h k = (h, k)
Ends-Yields P R Q (halt p) h k = h
Ends-Yields P R Q out_of_fuel h k = h

pub ok_injective {ℓ} : {A : Type ℓ} {a b : A} → ok a ≡ ok b → a ≡ b
ok_injective e = cc

-- Inversion of a chain that returned.
pub >>=-eq-ok {ℓ κ} :
    {A : Type ℓ} {B : Type κ} (r : Outcome A) (f : A → Outcome B) {b : B}
    → (r >>= f) ≡ ok b
    → (a : A) × (r ≡ ok a) × (f a ≡ ok b)
>>=-eq-ok (ok a) f h = (a, refl, h)
>>=-eq-ok (halt p) f h = cc
>>=-eq-ok out_of_fuel f h = cc
