-- ===== src/System/Accounts.antt =====
-- The accounts of the requests: each id is handed to one worker, answered by it at most once, and
-- stands in the table of the main loop until its answer is taken.
use tiny_media_server.Prelude.{
  Halt, missing_file, unreadable_body, bad_header, refused_response, no_worker, ℕ, ◌+◌, ◌≤◌, ◌≡◌,
  List, Bool, true, false, Option, none, some, nat_beq, ltb, sum_by, sum_by-le, arith, nat_key,
  one_if,
}
use tiny_media_server.Prelude.Map.{get}
use tiny_media_server.Io.{
  IoEvent, http_request, udp_socket_recv, IoAction, http_response, udp_socket_send,
}
use tiny_media_server.System.{Parts, channels}
use tiny_media_server.System.Crossbeam.{ChannelLaws}
use tiny_media_server.Main.{Main}

-- The panics that a round may end in: an answer without a request is not among them.
abbrev pub RoundPanic : Halt → Type 0
RoundPanic missing_file = Unit
RoundPanic unreadable_body = Unit
RoundPanic bad_header = Unit
RoundPanic refused_response = Unit
RoundPanic no_worker = Unit
RoundPanic _ = ⊥

-- 1 for an event that carries request `j`, and for an action that answers it.
abbrev pub asks : ℕ → IoEvent → ℕ
asks j (http_request req) = one_if (nat_beq req.req_id j)
asks j (udp_socket_recv from to buf) = 0

abbrev pub replies : ℕ → IoAction → ℕ
replies j (http_response res) = one_if (nat_beq res.req_id j)
replies j (udp_socket_send from to buf) = 0

abbrev pub is_some {ℓ} : {A : Type ℓ} → Option A → Bool
is_some none = false
is_some (some a) = true

-- 1 for an action that is no answer.
abbrev pub others : IoAction → ℕ
others (http_response res) = 0
others (udp_socket_send from to buf) = 1

module _ (P : Parts) where
  open P use {events, actions}

  -- How often request `j` was handed to a worker, and taken by one.
  abbrev pub asked : ℕ → List events.Chan → ℕ
  asked j = sum_by (λ q. sum_by (asks j) (events.given q))

  abbrev pub accepted : ℕ → List events.Chan → ℕ
  accepted j = sum_by (λ q. sum_by (asks j) (events.taken q))

  -- The main thread's account of request `j`: it is open or its answer was taken, once, if the id
  -- was given out; it was handed to one worker at the most; and the workers sent answers only.
  pub record Balanced (m : Main P.http (channels P)) (j : ℕ) : Type 0 where
    pub table :
        one_if (is_some (get j m.reqs))
          + sum_by (replies j) (actions.taken m.controller.worker_recv)
        ≡ one_if (ltb j m.req_id)
    pub handed : asked j m.controller.joins ≤ one_if (ltb j m.req_id)
    pub only_answers : sum_by others (actions.given m.controller.worker_recv) ≡ 0
    pub answers :
        sum_by (replies j) (actions.given m.controller.worker_recv) ≡ accepted j m.controller.joins

  pub accepted-le-asked :
      ChannelLaws events → (j : ℕ) (joins : List events.Chan) → accepted j joins ≤ asked j joins
  accepted-le-asked laws j joins =
      sum_by-le (λ q. sum_by (asks j) (events.taken q)) (λ q. sum_by (asks j) (events.given q))
        (λ q. laws.taken-le-given (asks j) q) joins

  -- An answer that the main loop takes is for a request that is open.
  pub open_answer :
      ChannelLaws events
      → ChannelLaws actions
      → (m : Main P.http (channels P)) (j : ℕ) → Balanced m j
      → sum_by (replies j) (actions.taken m.controller.worker_recv) + 1
        ≤ sum_by (replies j) (actions.given m.controller.worker_recv)
      → is_some (get j m.reqs) ≡ true
  open_answer elaws alaws m j b more =
      let le = accepted-le-asked elaws j m.controller.joins in
      ground (arith, le, b.table, b.handed, b.answers, more)

  abbrev pub Accounts : Main P.http (channels P) → Type 0
  Accounts m = (j : ℕ) → Balanced m j
