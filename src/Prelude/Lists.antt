-- ===== src/Prelude/Lists.antt =====
-- Lists measured by native numbers, and predicates on their entries.
use Prim.Native.Nat.{ℕ, zero, suc, ◌+◌, ◌-◌, ◌≤◌}
use mathlib.Core.Path.{◌≡◌, refl}
use mathlib.Core.Logic.{◌⊎◌, inl, inr}
use mathlib.Core.Bool.{Bool, true, false}
use mathlib.Core.Option.{Option, none, some}
use mathlib.Core.List.{List, [], ◌∷◌, ◌++◌}
use native.Mathlib.Omega.{arith}
use tiny_media_server.Prelude.Tests.{one_if, nat_beq, if◌then◌else◌, Bool-cases}

module _ {ℓ} {A : Type ℓ} where
  abbrev pub length : List A → ℕ
  length [] = 0
  length (x ∷ xs) = suc (length xs)

  abbrev pub is_empty : List A → Bool
  is_empty [] = true
  is_empty (x ∷ xs) = false

  abbrev pub get_elem? : List A → ℕ → Option A
  get_elem? [] n = none
  get_elem? (x ∷ xs) zero = some x
  get_elem? (x ∷ xs) (suc n) = get_elem? xs n

  abbrev pub take : ℕ → List A → List A
  take zero xs = []
  take (suc n) [] = []
  take (suc n) (x ∷ xs) = x ∷ take n xs

  abbrev pub drop : ℕ → List A → List A
  drop zero xs = xs
  drop (suc n) [] = []
  drop (suc n) (x ∷ xs) = drop n xs

  abbrev pub replicate : ℕ → A → List A
  replicate zero x = []
  replicate (suc n) x = x ∷ replicate n x

  -- Vec::retain
  unfoldable pub retain : (A → Bool) → List A → List A
  retain keep [] = []
  retain keep (x ∷ xs) = let rest = retain keep xs in if keep x then x ∷ rest else rest

  pub length-append : (xs ys : List A) → length (xs ++ ys) ≡ length xs + length ys
  length-append [] ys = omega arith
  length-append (x ∷ xs) ys = omega (arith, length-append xs ys)

  pub take-append : (xs ys : List A) → take (length xs) (xs ++ ys) ≡ xs
  take-append [] ys = refl
  take-append (x ∷ xs) ys = cc (take-append xs ys)

  pub length-replicate : (n : ℕ) (x : A) → length (replicate n x) ≡ n
  length-replicate zero x = refl
  length-replicate (suc n) x = omega (arith, length-replicate n x)

  pub length-drop : (n : ℕ) (xs : List A) → length (drop n xs) ≡ length xs - n
  length-drop zero xs = omega arith
  length-drop (suc n) [] = omega arith
  length-drop (suc n) (x ∷ xs) = omega (arith, length-drop n xs)

module _ {ℓ} {A : Type ℓ} (f : A → ℕ) where
  -- The sum of `f` over the entries.
  abbrev pub sum_by : List A → ℕ
  sum_by [] = 0
  sum_by (x ∷ xs) = f x + sum_by xs

  pub sum_by-append : (xs ys : List A) → sum_by (xs ++ ys) ≡ sum_by xs + sum_by ys
  sum_by-append [] ys = omega arith
  sum_by-append (x ∷ xs) ys = omega (arith, sum_by-append xs ys)

module _ {ℓ} {A : Type ℓ} (f g : A → ℕ) where
  pub sum_by-le : ((x : A) → f x ≤ g x) → (xs : List A) → sum_by f xs ≤ sum_by g xs
  sum_by-le h [] = omega arith
  sum_by-le h (x ∷ xs) = omega (arith, h x, sum_by-le h xs)

-- How often `j` is listed.
abbrev pub count : ℕ → List ℕ → ℕ
count j [] = 0
count j (i ∷ is) = one_if (nat_beq i j) + count j is

pub count-append : (j : ℕ) (is js : List ℕ) → count j (is ++ js) ≡ count j is + count j js
count-append j [] js = omega arith
count-append j (i ∷ is) js = omega (arith, count-append j is js)

-- Entry `i` replaced, if there is one.
module _ {ℓ} {A : Type ℓ} where
  abbrev pub replace : ℕ → A → List A → List A
  replace i y [] = []
  replace zero y (x ∷ xs) = y ∷ xs
  replace (suc i) y (x ∷ xs) = x ∷ replace i y xs

  pub sum_by-replace :
      (f : A → ℕ) (i : ℕ) (x y : A) (xs : List A)
      → get_elem? xs i ≡ some x
      → sum_by f (replace i y xs) + f x ≡ sum_by f xs + f y
  sum_by-replace f i x y [] e = cc
  sum_by-replace f zero x y (z ∷ xs) e = ground (arith, e)
  sum_by-replace f (suc i) x y (z ∷ xs) e = omega (arith, sum_by-replace f i x y xs e)

module _ {ℓ} {A : Type ℓ} where
  abbrev pub All {κ} : (A → Type κ) → List A → Type κ
  All P [] = Unit
  All P (x ∷ xs) = P x × All P xs

  -- Some entry satisfies `P`.
  abbrev pub Any : (A → Type 0) → List A → Type 0
  Any P [] = ⊥
  Any P (x ∷ xs) = P x ⊎ Any P xs

module _ {ℓ κ} {A : Type ℓ} (P : A → Type κ) where
  pub All-append : (xs ys : List A) → All P xs → All P ys → All P (xs ++ ys)
  All-append [] ys hx hy = hy
  All-append (x ∷ xs) ys hx hy = (hx.0, All-append xs ys hx.1 hy)

  pub All-replicate : (n : ℕ) (x : A) → P x → All P (replicate n x)
  All-replicate zero x h = tt
  All-replicate (suc n) x h = (h, All-replicate n x h)

  pub All-retain : (keep : A → Bool) (xs : List A) → All P xs → All P (retain keep xs)
  unfolding retain
  All-retain keep [] h = tt
  All-retain keep (x ∷ xs) h = elim (Bool-cases (keep x)) [
    | inl e ↦ rw e (h.0, All-retain keep xs h.1)
    | inr e ↦ rw e (All-retain keep xs h.1)
  ]

  pub All-get_elem? : (xs : List A) (i : ℕ) (x : A) → All P xs → get_elem? xs i ≡ some x → P x
  All-get_elem? [] i x h e = cc
  All-get_elem? (y ∷ xs) zero x h e = ground (arith, h, e)
  All-get_elem? (y ∷ xs) (suc i) x h e = All-get_elem? xs i x h.1 e

  pub All-replace : (i : ℕ) (y : A) (xs : List A) → P y → All P xs → All P (replace i y xs)
  All-replace i y [] p h = tt
  All-replace zero y (x ∷ xs) p h = (p, h.1)
  All-replace (suc i) y (x ∷ xs) p h = (h.0, All-replace i y xs p h.1)

  pub All-weaken {ι} : {Q : A → Type ι} (xs : List A) → ((a : A) → P a → Q a) → All P xs → All Q xs
  All-weaken [] f h = tt
  All-weaken (x ∷ xs) f h = (f x h.0, All-weaken xs f h.1)

pub some_injective {ℓ} : {A : Type ℓ} {x y : A} → some x ≡ some y → x ≡ y
some_injective e = cc
