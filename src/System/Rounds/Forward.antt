-- ===== src/System/Rounds/Forward.antt =====
-- The request that the main loop hands to a worker.
use native.Mathlib.Nat.{mod-lt}
use tiny_media_server.Prelude.{
  ℕ, zero, suc, ◌+◌, ◌%◌, ◌<◌, ◌≡◌, refl, sym, ◌∙◌, List, [], ◌∷◌, ok, Ends, Ends-bind, Ends-weaken,
  length, nat_beq, sum_by, sum_by-append, arith, nat_key, Option-cases, Bool-cases, inl, inr,
}
use tiny_media_server.Prelude.Map.{get-insert}
use tiny_media_server.Io.{HttpRequest, http_request}
use tiny_media_server.Net.Mmsg.{update_at}
use tiny_media_server.Controller.{Controller, input}
use tiny_media_server.Main.{Main, forward}
use tiny_media_server.System.{Parts, channels}
use tiny_media_server.System.Crossbeam.{ChannelLaws}
use tiny_media_server.System.Accounts.{asks, asked, accepted, RoundPanic, Accounts}

-- An update at one place, by a function that adds `d` to one measure and nothing to another.
module _ {A : Type 0} (f : A → A) (p q : ℕ → A → ℕ) (d : ℕ → ℕ) where
  abbrev Adds : List A → List A → Type 0
  Adds xs ys =
      (j : ℕ) → (sum_by (p j) ys ≡ sum_by (p j) xs + d j) × (sum_by (q j) ys ≡ sum_by (q j) xs)

  update_at-Adds :
      ((j : ℕ) (x : A) → (p j (f x) ≡ p j x + d j) × (q j (f x) ≡ q j x))
      → (i : ℕ) (xs : List A) → i < length xs
      → Ends (Adds xs) (λ _. ⊥) (update_at i (λ x. ok (f x)) xs)
  unfolding update_at
  update_at-Adds adds i [] lt = absurd (omega (arith, lt))
  update_at-Adds adds zero (x ∷ xs) lt =
      λ j. (omega (arith, (adds j x).0), omega (arith, (adds j x).1))
  update_at-Adds adds (suc i) (x ∷ xs) lt =
      Ends-bind (Adds xs) (Adds (x ∷ xs)) (λ _. ⊥) (update_at i (λ x. ok (f x)) xs)
        (λ ys. ok (x ∷ ys)) (update_at-Adds adds i xs (omega (arith, lt)))
        λ ys _ h j. (omega (arith, (h j).0), omega (arith, (h j).1))

module _ (P : Parts) (el : ChannelLaws P.events) (al : ChannelLaws P.actions) where
  -- The controller hands the request to one worker.
  record Handed (req : HttpRequest) (c c' : Controller (channels P)) : Type 0 where
    same_recv : c'.worker_recv ≡ c.worker_recv
    adds :
        (j : ℕ)
        → (asked P j c'.joins ≡ asked P j c.joins + asks j (http_request req))
          × (accepted P j c'.joins ≡ accepted P j c.joins)

  input-Handed :
      (req : HttpRequest) (c : Controller (channels P))
      → Ends (Handed req c) RoundPanic (input (channels P) (http_request req) c)
  unfolding input
  input-Handed req c = elim (Bool-cases (nat_beq (length c.joins) 0)) [
    | inl empty ↦ rw empty tt
    | inr workers ↦
        let e = http_request req in
        let f : P.events.Chan → P.events.Chan = λ q. (P.events.try_send e q).1 in
        let i = c.count % length c.joins in
        rw workers (
          Ends-bind
            (Adds f (λ j q. sum_by (asks j) (P.events.given q))
              (λ j q. sum_by (asks j) (P.events.taken q)) (λ j. asks j e) c.joins)
            (Handed req c) RoundPanic (update_at i (λ q. ok (f q)) c.joins)
            (λ joins. ok (record c { joins = joins; count = c.count + 1 }))
            (Ends-weaken _ _ (λ _. ⊥) RoundPanic (update_at i (λ q. ok (f q)) c.joins)
              (update_at-Adds f _ _ (λ j. asks j e)
                (λ j q. (
                  rw (el.try_send-given e q)
                      (omega (arith, sum_by-append (asks j) (P.events.given q) (e ∷ []))),
                  rw (el.try_send-taken e q) refl,
                ))
                i c.joins (mod-lt c.count (ground (arith, workers))))
              (λ ys k. k) (λ p k. absurd k))
            λ joins _ k. record { same_recv = refl; adds = k })
  ]

  pub forward-Accounts :
      (request : P.http.Request) (m : Main P.http (channels P))
      → Accounts P m
      → Ends (Accounts P) RoundPanic (forward P.http (channels P) request m)
  unfolding forward
  forward-Accounts request m b = elim (Option-cases (P.http.body request)) [
    | inl unread ↦ rw unread tt
    | inr (body, read) ↦ rw read (
        Ends-bind (Handed _ m.controller) (Accounts P) RoundPanic
          (input (channels P) _ m.controller) _ (input-Handed _ m.controller)
          λ c _ k j. record {
            table =
                rw k.same_recv (ground (arith, (b j).table, get-insert m.req_id j request m.reqs));
            handed = ground (arith, (b j).handed, (k.adds j).0);
            only_answers = rw k.same_recv (b j).only_answers;
            answers = rw k.same_recv ((b j).answers ∙ sym (k.adds j).1);
          })
  ]
