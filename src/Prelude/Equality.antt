-- ===== src/Prelude/Equality.antt =====
-- The keys of the program's hash maps: types whose values a test tells apart.
use Prim.Native.Nat.{ℕ}
use Prim.Native.String.{String}
use mathlib.Core.Bool.{Bool, true}
use mathlib.Core.Logic.{◌↔◌}
use mathlib.Core.Path.{◌≡◌, refl}
use text.Mathlib.Text
use text.Mathlib.TextEquality
use tiny_media_server.Prelude.Tests.{nat_beq, nat_beq_iff}

-- What a type needs to be the key of a `HashMap`.
pub record Key {ℓ} (K : Type ℓ) : Type ℓ where
  pub same_key : K → K → Bool
  pub same_key_iff : (k j : K) → (same_key k j ≡ true) ↔ (k ≡ j)

-- Task ids, and the indices of a compose session's lists.
instance abbrev pub nat_key : Key ℕ
nat_key = record { same_key = nat_beq; same_key_iff = nat_beq_iff }

-- Channels, peers, tokens and ICE user fragments.
instance abbrev pub string_key : Key String
string_key = record { same_key = Text.◌==◌; same_key_iff = TextEquality.eq_iff }

module _ {ℓ} {K : Type ℓ} ⦃key : Key K⦄ where
  infix 50 ◌==◌
  abbrev pub ◌==◌ : K → K → Bool
  k == j = key.same_key k j

  pub ==_iff : (k j : K) → ((k == j) ≡ true) ↔ (k ≡ j)
  ==_iff k j = key.same_key_iff k j

  pub ==_refl : (k : K) → (k == k) ≡ true
  ==_refl k = (==_iff k k).1 refl
