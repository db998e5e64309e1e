-- ===== src/System/Crossbeam.antt =====
-- A bounded channel of crossbeam between threads: a parameter.
use tiny_media_server.Prelude.{ℕ, ◌≤◌, ◌≡◌, List, [], ◌∷◌, ◌++◌, Bool, Option, none, some, sum_by}
use tiny_media_server.Tasks.Roles.{Uses}

-- `given` lists what senders gave the channel, refused messages included, `taken` what receivers
-- got, each from the start; `waiting` counts the messages in the channel.
pub record Channel (A : Type 0) : Type 1 where
  pub Chan : Type 0
  pub bounded : ℕ → Chan
  pub try_send : A → Chan → Bool × Chan
  pub send : A → Chan → Option (Option Chan)
  pub try_recv : Chan → Option A × Chan
  pub given : Chan → List A
  pub taken : Chan → List A
  pub waiting : Chan → ℕ

abbrev pub listed : {A : Type 0} → Option A → List A
listed none = []
listed (some a) = a ∷ []

-- A message is taken no more often than it was given: under whatever weights, what was taken
-- weighs no more.
pub record ChannelLaws {A : Type 0} (c : Channel A) : Type 0 where
  pub given-bounded : (n : ℕ) → c.given (c.bounded n) ≡ []
  pub try_send-given : (a : A) (s : c.Chan) → c.given (c.try_send a s).1 ≡ c.given s ++ a ∷ []
  pub try_send-taken : (a : A) (s : c.Chan) → c.taken (c.try_send a s).1 ≡ c.taken s
  pub send-given :
      (a : A) (s s' : c.Chan) → c.send a s ≡ some (some s') → c.given s' ≡ c.given s ++ a ∷ []
  pub send-taken : (a : A) (s s' : c.Chan) → c.send a s ≡ some (some s') → c.taken s' ≡ c.taken s
  pub try_recv-given : (s : c.Chan) → c.given (c.try_recv s).1 ≡ c.given s
  pub try_recv-taken :
      (s : c.Chan) → c.taken (c.try_recv s).1 ≡ c.taken s ++ listed (c.try_recv s).0
  pub taken-le-given : (p : A → ℕ) (s : c.Chan) → sum_by p (c.taken s) ≤ sum_by p (c.given s)
  pub try_recv-Uses :
      (s : c.Chan) → Uses (c.try_recv s).0 (c.waiting s) (c.waiting (c.try_recv s).1)
