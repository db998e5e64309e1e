-- ===== src/Controller/Fairness.antt =====
-- The share of the requests that each worker's channel is given by src/controller.rs.
use tiny_media_server.Net.Mmsg.{update_at}
use native.Mathlib.Nat.{zero-mod, mod-lt, mod-eq_of_lt, mod_self, mod-add-mod}
use tiny_media_server.Prelude.{
  ℕ, zero, suc, ◌+◌, ◌%◌, ◌≤◌, ◌<◌, ◌≡◌, refl, ◌∙◌, sym, ap, List, [], ◌∷◌, All, All-get_elem?,
  length, get_elem?, Bool, true, false, Option, none, some, nat_beq, ltb, one_if, Outcome, ok,
  ◌>>=◌, Ends, Ends-bind, Ends-weaken, Bool-cases, inl, inr, ◌⊎◌, arith, Ends-Yields, Yields,
  Yields-bind, Yields-weaken, sum_by, some_injective,
}
use tiny_media_server.Io.{HttpRequest, IoEvent, http_request}
use tiny_media_server.Controller.{Channels, Controller, input, applied, IsApplied, input_lem}

-- The remainder of the next number.
next_mod :
    (k n : ℕ)
    → 0 < n
    → ((k % n + 1 < n) × ((k + 1) % n ≡ k % n + 1)) ⊎ ((k % n + 1 ≡ n) × ((k + 1) % n ≡ 0))
next_mod k n pos = elim (Bool-cases (ltb (k % n + 1) n)) [
  | inl below ↦
      let lt : k % n + 1 < n = ground (arith, below) in
      inl (lt, sym (mod-add-mod k n 1) ∙ mod-eq_of_lt lt)
  | inr above ↦
      let same : k % n + 1 ≡ n = ground (arith, above, mod-lt k pos) in
      inr (same, sym (mod-add-mod k n 1) ∙ ap (λ m. m % n) same ∙ mod_self n)
]

lt-length : {A : Type 0} (xs : List A) (j : ℕ) (x : A) → get_elem? xs j ≡ some x → j < length xs
lt-length [] j x e = cc
lt-length (y ∷ xs) zero x e = omega arith
lt-length (y ∷ xs) (suc j) x e = omega (arith, lt-length xs j x e)

module _ (ch : Channels) (given : ch.Sender → ℕ) where
  -- Any number of requests, one after another.
  unfoldable pub inputs : List HttpRequest → Controller ch → Outcome (Controller ch)
  inputs [] c = ok c
  inputs (req ∷ reqs) c = do c' ← input ch (http_request req) c; inputs reqs c'

  -- The workers before the next one have been given one request more than the others.
  abbrev pub IsEven : Controller ch → Type 0
  IsEven c =
      (base : ℕ) × ((j : ℕ) (s : ch.Sender)
        → get_elem? c.joins j ≡ some s
        → given s ≡ base + one_if (ltb j (c.count % length c.joins)))

  module _ (adds : (e : IoEvent) (s : ch.Sender) → given (ch.try_send e s).1 ≡ given s + 1) where
    given_applied :
        (e : IoEvent) (here : Bool) (o : Option ch.Sender) (s' : ch.Sender)
        → applied (λ s. (ch.try_send e s).1) here o ≡ some s'
        → (s : ch.Sender) × (o ≡ some s) × (given s' ≡ given s + one_if here)
    given_applied e here none s' same = cc
    given_applied e false (some s) s' same = (s, refl, rw (← some_injective same) (omega arith))
    given_applied e true (some s) s' same = (s, refl, rw (← some_injective same) (adds e s))

    -- The worker whose turn it is gets one more.
    next-IsEven :
        (req : HttpRequest) (c c' : Controller ch)
        → 0 < length c.joins
        → c'.count ≡ c.count + 1
        → ((j : ℕ)
            → IsApplied
                (λ s. (ch.try_send (http_request req) s).1)
                (c.count % length c.joins)
                j
                c.joins
                c'.joins)
        → IsEven c
        → IsEven c'
    next-IsEven req c c' workers count step (base, even) =
        let i = c.count % length c.joins in
        elim (next_mod c.count (length c.joins) workers) [
          | inl (lt, next) ↦ (
            base,
            λ j s' e.
                let (s, e', g) =
                  given_applied (http_request req) (nat_beq i j) (get_elem? c.joins j) s'
                    (sym (step j).1 ∙ e) in
                rw (count, (step j).0, next) (ground (arith, g, even j s e')),
          )
          | inr (last, next) ↦ (
            base + 1,
            λ j s' e.
                let (s, e', g) =
                  given_applied (http_request req) (nat_beq i j) (get_elem? c.joins j) s'
                    (sym (step j).1 ∙ e) in
                rw (count, (step j).0, next)
                  (ground (arith, g, even j s e', last, lt-length c.joins j s e')),
          )
        ]

    inputs-IsEven :
        (reqs : List HttpRequest) (c : Controller ch)
        → 0 < length c.joins
        → IsEven c
        → Ends IsEven (λ _. ⊥) (inputs reqs c)
    unfolding inputs
    inputs-IsEven [] c workers even = even
    inputs-IsEven (req ∷ reqs) c workers even =
        Ends-bind _ IsEven (λ _. ⊥) (input ch (http_request req) c) (inputs reqs)
          (input_lem ch req c workers)
          λ c' _ (count, step).
            inputs-IsEven reqs c' (omega (arith, workers, (step 0).0))
              (next-IsEven req c c' workers count step even)

    -- No worker is ahead of another by more than one request.
    abbrev pub IsFair : Controller ch → Type 0
    IsFair c =
        (i j : ℕ) (s t : ch.Sender)
        → get_elem? c.joins i ≡ some s
        → get_elem? c.joins j ≡ some t
        → given s ≤ given t + 1

    IsEven-IsFair : (c : Controller ch) → IsEven c → IsFair c
    IsEven-IsFair c (base, even) i j s t e e' = ground (arith, even i s e, even j t e')

    update_at-total :
        (e : IoEvent) (i : ℕ) (joins : List ch.Sender)
        → Yields
            (λ joins'. sum_by given joins' ≡ sum_by given joins + 1)
            (update_at i (λ s. ok (ch.try_send e s).1) joins)
    unfolding update_at
    update_at-total e i [] = tt
    update_at-total e zero (s ∷ joins) = omega (arith, adds e s)
    update_at-total e (suc i) (s ∷ joins) =
        Yields-bind (λ joins'. sum_by given joins' ≡ sum_by given joins + 1) _
          (update_at i (λ s. ok (ch.try_send e s).1) joins) _ (update_at-total e i joins)
          λ joins' total. omega (arith, total)

    input-total :
        (req : HttpRequest) (c : Controller ch)
        → Yields
            (λ c'. sum_by given c'.joins ≡ sum_by given c.joins + 1)
            (input ch (http_request req) c)
    unfolding input
    input-total req c = elim (Bool-cases (nat_beq (length c.joins) 0)) [
      | inl empty ↦ rw empty tt
      | inr workers ↦ rw workers (
          Yields-bind (λ joins'. sum_by given joins' ≡ sum_by given c.joins + 1) _
            (update_at (c.count % length c.joins) (λ s. ok (ch.try_send (http_request req) s).1)
              c.joins)
            _ (update_at-total (http_request req) (c.count % length c.joins) c.joins)
            λ joins' total. total)
    ]

    inputs-total :
        (reqs : List HttpRequest) (c : Controller ch)
        → Yields (λ c'. sum_by given c'.joins ≡ sum_by given c.joins + length reqs) (inputs reqs c)
    unfolding inputs
    inputs-total [] c = omega arith
    inputs-total (req ∷ reqs) c =
        Yields-bind (λ c'. sum_by given c'.joins ≡ sum_by given c.joins + 1) _
          (input ch (http_request req) c) (inputs reqs) (input-total req c)
          λ c' one.
            Yields-weaken (λ c''. sum_by given c''.joins ≡ sum_by given c'.joins + length reqs) _
              (inputs reqs c') (inputs-total reqs c') λ c'' rest. omega (arith, one, rest)

    none-total : (joins : List ch.Sender) → All (λ s. given s ≡ 0) joins → sum_by given joins ≡ 0
    none-total [] h = refl
    none-total (s ∷ joins) h = omega (arith, h.0, none-total joins h.1)

    -- Over channels of which each counts what it is given, a new controller with at least one
    -- worker hands any requests, one after another, to the workers without a panic, such that no
    -- worker is given more than one request more than another, and each request is given to one
    -- worker.
    pub inputs_lem :
        (reqs : List HttpRequest) (c : Controller ch)
        → 0 < length c.joins
        → c.count ≡ 0
        → All (λ s. given s ≡ 0) c.joins
        → Ends (λ c'. IsFair c' × (sum_by given c'.joins ≡ length reqs)) (λ _. ⊥) (inputs reqs c)
    inputs_lem reqs c workers new none_given =
        Ends-Yields _ _ (λ _. ⊥) (inputs reqs c)
          (Ends-weaken IsEven IsFair (λ _. ⊥) (λ _. ⊥) (inputs reqs c)
            (inputs-IsEven reqs c workers (
              0,
              λ j s e.
                  rw (new, zero-mod (length c.joins))
                    (ground (arith, All-get_elem? (λ s. given s ≡ 0) c.joins j s none_given e)),
            ))
            IsEven-IsFair (λ p k. k))
          (Yields-weaken (λ c'. sum_by given c'.joins ≡ sum_by given c.joins + length reqs) _
            (inputs reqs c) (inputs-total reqs c)
            λ c' total. omega (arith, total, none-total c.joins none_given))
