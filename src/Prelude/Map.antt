-- ===== src/Prelude/Map.antt =====
-- std::collections::HashMap as an association list: `get`, `insert`, `remove`, and `modify` for a
-- write through `get_mut`. The program iterates over `tasks` and response headers in an order that
-- it does not choose; the list is some such order.
use mathlib.Core.Path.{◌≡◌, refl, subst}
use mathlib.Core.Logic.{inl, inr}
use mathlib.Core.Bool.{true}
use mathlib.Core.Option
use mathlib.Core.Option.{Option, none, some}
use mathlib.Core.List.{List, [], ◌∷◌}
use native.Mathlib.Omega.{arith}
use tiny_media_server.Prelude.Tests.{if◌then◌else◌, Bool-cases, Option-cases}
use tiny_media_server.Prelude.Lists.{All}
use tiny_media_server.Prelude.Equality.{Key, ◌==◌}

abbrev pub Map {ℓ κ} : Type ℓ → Type κ → Type (ℓ ⊔ κ)
Map K V = List (K × V)

module _ {ℓ κ} {K : Type ℓ} {V : Type κ} ⦃e : Key K⦄ where
  unfoldable pub get : K → Map K V → Option V
  get k [] = none
  get k ((j, v) ∷ m) = if j == k then some v else get k m

  unfoldable pub insert : K → V → Map K V → Map K V
  insert k v [] = (k, v) ∷ []
  insert k v ((j, w) ∷ m) = if j == k then (k, v) ∷ m else (j, w) ∷ insert k v m

  unfoldable pub remove : K → Map K V → Map K V
  remove k [] = []
  remove k ((j, v) ∷ m) = let rest = remove k m in if j == k then rest else (j, v) ∷ rest

  unfoldable pub modify : K → (V → V) → Map K V → Map K V
  modify k f [] = []
  modify k f ((j, v) ∷ m) = (j, if j == k then f v else v) ∷ modify k f m

  -- entry(k).or_insert(v)
  unfoldable pub or_insert : K → V → Map K V → Map K V
  unfolding get insert
  or_insert k v m = elim (get k m) [ none ↦ insert k v m | some w ↦ m ]

  pub get-insert :
      (k j : K) (v : V) (m : Map K V) → get j (insert k v m) ≡ (if k == j then some v else get j m)
  unfolding get insert
  get-insert k j v [] = refl
  get-insert k j v ((i, w) ∷ m) =
      ground (arith, e.same_key_iff k j, e.same_key_iff i k, e.same_key_iff i j, get-insert k j v m)

  pub get-remove : (k j : K) (m : Map K V) → get j (remove k m) ≡ (if k == j then none else get j m)
  unfolding get remove
  get-remove k j [] = ground arith
  get-remove k j ((i, w) ∷ m) =
      ground (arith, e.same_key_iff k j, e.same_key_iff i k, e.same_key_iff i j, get-remove k j m)

  pub get-modify :
      (k j : K) (f : V → V) (m : Map K V)
      → get j (modify k f m) ≡ (if k == j then Option.map f (get j m) else get j m)
  unfolding get modify
  get-modify k j f [] = ground arith
  get-modify k j f ((i, w) ∷ m) =
      ground (arith, e.same_key_iff k j, e.same_key_iff i k, e.same_key_iff i j, get-modify k j f m)

-- An entry that is there is kept; one that is not is made.
module _ {ℓ κ} {K : Type ℓ} {V : Type κ} ⦃e : Key K⦄ where
  pub get-or_insert :
      (k j : K) (v : V) (m : Map K V)
      → get j (or_insert k v m) ≡ (if k == j then some (Option.get_or (get j m) v) else get j m)
  unfolding or_insert
  get-or_insert k j v m = elim (Option-cases (get k m)) [
    | inl absent ↦
        rw (absent, or_insert)
          (rw (get-insert k j v m) (elim (Bool-cases (k == j)) [
            | inl same ↦ rw same (rw (← (e.same_key_iff k j).0 same) (rw absent))
            | inr other ↦ rw other
          ]))
    | inr (w, there) ↦
        rw (there, or_insert)
          (elim (Bool-cases (k == j)) [
            | inl same ↦ rw same (rw (← (e.same_key_iff k j).0 same) (rw there))
            | inr other ↦ rw other
          ])
  ]

-- A predicate on entries survives each operation.
module _ {ℓ κ ι} {K : Type ℓ} {V : Type κ} ⦃e : Key K⦄ (P : K × V → Type ι) where
  pub All-get : (k : K) (m : Map K V) (v : V) → All P m → get k m ≡ some v → P (k, v)
  unfolding get
  All-get k [] v h g = cc
  All-get k ((j, w) ∷ m) v h g = elim (Bool-cases (j == k)) [
    | inl same ↦
        let found : w ≡ v = ground arith in
        subst P (λ i. ((e.same_key_iff j k).0 same i, found i)) h.0
    | inr other ↦ All-get k m v h.1 (ground arith)
  ]

  pub All-insert : (k : K) (v : V) (m : Map K V) → P (k, v) → All P m → All P (insert k v m)
  unfolding insert
  All-insert k v [] p h = (p, tt)
  All-insert k v ((j, w) ∷ m) p h = elim (Bool-cases (j == k)) [
    | inl same ↦ rw same (p, h.1)
    | inr other ↦ rw other (h.0, All-insert k v m p h.1)
  ]

  pub All-remove : (k : K) (m : Map K V) → All P m → All P (remove k m)
  unfolding remove
  All-remove k [] h = tt
  All-remove k ((j, w) ∷ m) h = elim (Bool-cases (j == k)) [
    | inl same ↦ rw same (All-remove k m h.1)
    | inr other ↦ rw other (h.0, All-remove k m h.1)
  ]

  pub All-modify :
      (k : K) (f : V → V) (m : Map K V)
      → ((j : K) (v : V) → (j == k) ≡ true → P (j, v) → P (j, f v))
      → All P m
      → All P (modify k f m)
  unfolding modify
  All-modify k f [] q h = tt
  All-modify k f ((j, w) ∷ m) q h = elim (Bool-cases (j == k)) [
    | inl same ↦ rw same (q j w same h.0, All-modify k f m q h.1)
    | inr other ↦ rw other (h.0, All-modify k f m q h.1)
  ]

  pub All-or_insert : (k : K) (v : V) (m : Map K V) → P (k, v) → All P m → All P (or_insert k v m)
  unfolding or_insert
  All-or_insert k v m p h = elim (Option-cases (get k m)) [
    | inl e ↦ rw (e, or_insert) (All-insert k v m p h)
    | inr (w, e) ↦ rw (e, or_insert) h
  ]
