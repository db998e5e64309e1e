-- ===== src/System/Cycles.antt =====
-- One cycle of a worker, and the accounts of the requests that it takes from its queue.
use mathlib.Core.List.{append_assoc, append-nil}
use tiny_media_server.Prelude.{
  ℕ, zero, suc, ◌+◌, ◌≡◌, refl, ap, ◌∙◌, List, [], ◌∷◌, ◌++◌, map, some, ok, sum_by, sum_by-append,
  count, count-append, arith, Option-cases, inl, inr, length, length-append,
}
use tiny_media_server.Io.{
  IoEvent, http_request, udp_socket_recv, IoAction, http_response, udp_socket_send, HttpResponse,
}
use tiny_media_server.Tasks.Answers.{answered}
use tiny_media_server.Worker.State.{Worker}
use tiny_media_server.Worker.Cycle.{Arrivals, process_cycle}
use tiny_media_server.Worker.Answers.{AnswerLaws}
use tiny_media_server.Worker.Answers.Inbox.{requested, Quiet, Answers}
use tiny_media_server.Worker.Answers.Cycle.{process_cycle-Answers}
use tiny_media_server.Server.Answers.{ExtSenderLaws, answer_laws}
use tiny_media_server.System.{Parts, crates, env, receive, with_channel}
use tiny_media_server.System.Crossbeam.{ChannelLaws}
use tiny_media_server.System.Accounts.{asks, replies, others}

-- The ids that actions answer.
abbrev pub ids : List IoAction → List ℕ
ids [] = []
ids (a ∷ as_) = answered a ++ ids as_

ids-append : (xs ys : List IoAction) → ids (xs ++ ys) ≡ ids xs ++ ids ys
ids-append [] ys = refl
ids-append (x ∷ xs) ys = simp (ids-append xs ys, append_assoc)

ids_next : (xs : List IoAction) (a : IoAction) → ids (xs ++ a ∷ []) ≡ ids xs ++ answered a
ids_next xs a = simp (ids-append xs (a ∷ []), append-nil)

-- The same, with an entry for each action that answers none.
abbrev pub all_ids : List IoAction → List ℕ
all_ids [] = []
all_ids (http_response res ∷ as_) = res.req_id ∷ all_ids as_
all_ids (udp_socket_send from to buf ∷ as_) = 0 ∷ all_ids as_

pub all_ids_next :
    (xs : List IoAction) (res : HttpResponse)
    → all_ids (xs ++ http_response res ∷ []) ≡ all_ids xs ++ res.req_id ∷ []
all_ids_next [] res = refl
all_ids_next (http_response r ∷ xs) res = rw (all_ids_next xs res)
all_ids_next (udp_socket_send from to buf ∷ xs) res = rw (all_ids_next xs res)

length-all_ids : (xs : List IoAction) → length (all_ids xs) ≡ length (ids xs) + sum_by others xs
length-all_ids [] = omega arith
length-all_ids (http_response r ∷ xs) = omega (arith, length-all_ids xs)
length-all_ids (udp_socket_send from to buf ∷ xs) = omega (arith, length-all_ids xs)

count-ids : (j : ℕ) (xs : List IoAction) → count j (ids xs) ≡ sum_by (replies j) xs
count-ids j [] = refl
count-ids j (http_response res ∷ xs) = omega (arith, count-ids j xs)
count-ids j (udp_socket_send from to buf ∷ xs) = omega (arith, count-ids j xs)

pub count-requested :
    (j : ℕ) (es : List (IoEvent × ℕ × ℕ))
    → count j (requested es) ≡ sum_by (asks j) (map (λ e. e.0) es)
count-requested j [] = refl
count-requested j ((http_request req, entropy, now) ∷ es) = omega (arith, count-requested j es)
count-requested j ((udp_socket_recv from to buf, entropy, now) ∷ es) =
    omega (arith, count-requested j es)

module _ (P : Parts) (el : ChannelLaws P.events) (al : ChannelLaws P.actions) where
  -- What a receiver takes is what it gets.
  pub receive_lem :
      (n j : ℕ) (q : P.events.Chan)
      → (sum_by (asks j) (P.events.taken (receive P n q).1)
          ≡ sum_by (asks j) (P.events.taken q) + sum_by (asks j) (receive P n q).0)
        × (P.events.given (receive P n q).1 ≡ P.events.given q)
  unfolding receive
  receive_lem zero j q = (omega arith, refl)
  receive_lem (suc n) j q = elim (Option-cases (P.events.try_recv q).0) [
    | inl e ↦
        rw (e, receive)
          (
            rw (el.try_recv-taken q, e)
                (omega (arith, sum_by-append (asks j) (P.events.taken q) [])),
            el.try_recv-given q,
          )
    | inr (x, e) ↦
        let q' = (P.events.try_recv q).1 in
        let rest = receive_lem n j q' in
        let took : sum_by (asks j) (P.events.taken q')
            ≡ sum_by (asks j) (P.events.taken q) + asks j x =
          rw (el.try_recv-taken q, e)
            (omega (arith, sum_by-append (asks j) (P.events.taken q) (x ∷ []))) in
        rw (e, receive) (omega (arith, rest.0, took), rest.1 ∙ el.try_recv-given q)
  ]

  abbrev pub gave : P.actions.Chan → List ℕ
  gave c = ids (P.actions.given c)

  abbrev pub moved : P.actions.Chan → List ℕ
  moved c = ids (P.actions.taken c) ++ ids (P.actions.given c)

  pub try_send-gave :
      (a : IoAction) (c : P.actions.Chan) → gave (P.actions.try_send a c).1 ≡ gave c ++ answered a
  try_send-gave a c = rw (al.try_send-given a c) (ids_next (P.actions.given c) a)

  pub send-gave :
      (a : IoAction) (c c' : P.actions.Chan)
      → P.actions.send a c ≡ some (some c')
      → gave c' ≡ gave c ++ answered a
  send-gave a c c' e = rw (al.send-given a c c' e) (ids_next (P.actions.given c) a)

  pub try_send-moved :
      (a : IoAction) (c : P.actions.Chan) → moved (P.actions.try_send a c).1 ≡ moved c ++ answered a
  try_send-moved a c = simp (al.try_send-taken a c, try_send-gave a c, append_assoc)

  pub send-moved :
      (a : IoAction) (c c' : P.actions.Chan)
      → P.actions.send a c ≡ some (some c')
      → moved c' ≡ moved c ++ answered a
  send-moved a c c' e = simp (al.send-taken a c c' e, send-gave a c c' e, append_assoc)

  -- Two logs of the channel: what it was given, and that after what was taken. A worker adds the
  -- same to both, so it takes nothing.
  abbrev pub given_log : ExtSenderLaws P.media (crates P)
  given_log = record {
    attempted = gave;
    try_send-attempted = λ res. try_send-gave (http_response res);
    send-attempted = λ res. send-gave (http_response res);
  }

  abbrev pub moved_log : ExtSenderLaws P.media (crates P)
  moved_log = record {
    attempted = moved;
    try_send-attempted = λ res. try_send-moved (http_response res);
    send-attempted = λ res. send-moved (http_response res);
  }

  -- A third log has an entry for every action, so that a worker gives answers only.
  abbrev pub posted : P.actions.Chan → List ℕ
  posted c = all_ids (P.actions.given c)

  abbrev pub posted_log : ExtSenderLaws P.media (crates P)
  posted_log = record {
    attempted = posted;
    try_send-attempted = λ res c.
        rw (al.try_send-given (http_response res) c) (all_ids_next (P.actions.given c) res);
    send-attempted = λ res c c' e.
        rw (al.send-given (http_response res) c c' e) (all_ids_next (P.actions.given c) res);
  }

  -- A cycle answers the requests that it got, and takes no answer.
  pub record Cycled (ids' : List ℕ) (c : P.actions.Chan) (w' : Worker (env P)) : Type 0 where
    pub given :
        (j : ℕ)
        → sum_by (replies j) (P.actions.given w'.shared.ext_send)
          ≡ sum_by (replies j) (P.actions.given c) + count j ids'
    pub others_given :
        sum_by others (P.actions.given w'.shared.ext_send) ≡ sum_by others (P.actions.given c)
    pub taken :
        (j : ℕ)
        → sum_by (replies j) (P.actions.taken w'.shared.ext_send)
          ≡ sum_by (replies j) (P.actions.taken c)

  abbrev pub laws_of : ExtSenderLaws P.media (crates P) → AnswerLaws (env P)
  laws_of = answer_laws P.media P.rtc P.udp (crates P)

  abbrev pub IsQuiet : Worker (env P) → Type 0
  IsQuiet = Quiet (env P) (laws_of given_log)

  counted :
      (j : ℕ) (xs ys : List IoAction) (zs : List ℕ)
      → ids ys ≡ ids xs ++ zs
      → sum_by (replies j) ys ≡ sum_by (replies j) xs + count j zs
  counted j xs ys zs e =
      omega (arith, ap (count j) e, count-ids j xs, count-ids j ys, count-append j (ids xs) zs)

  pub cycle_lem :
      (a : Arrivals (env P)) (c : P.actions.Chan) (w w' : Worker (env P))
      → IsQuiet w
      → process_cycle (env P) a (with_channel P c w) ≡ ok w'
      → IsQuiet w' × Cycled (requested a.http_events) c w'
  cycle_lem a c w w' quiet e =
      let x : Answers (env P) (laws_of given_log) (requested a.http_events) (with_channel P c w)
          w' =
        rw e at (process_cycle-Answers (env P) (laws_of given_log) a (with_channel P c w) quiet) in
      let y : Answers (env P) (laws_of moved_log) (requested a.http_events) (with_channel P c w)
          w' =
        rw e at (process_cycle-Answers (env P) (laws_of moved_log) a (with_channel P c w) quiet) in
      let z : Answers (env P) (laws_of posted_log) (requested a.http_events) (with_channel P c w)
          w' =
        rw e at (process_cycle-Answers (env P) (laws_of posted_log) a (with_channel P c w) quiet) in
      let n = length (requested a.http_events) in
      (
        x.0,
        record {
          others_given = omega (
            arith,
            ap length x.1,
            ap length z.1,
            length-append (ids (P.actions.given c)) (requested a.http_events),
            length-append (all_ids (P.actions.given c)) (requested a.http_events),
            length-all_ids (P.actions.given c),
            length-all_ids (P.actions.given w'.shared.ext_send),
          );
          given = λ j.
              counted j (P.actions.given c) (P.actions.given w'.shared.ext_send)
                (requested a.http_events) x.1;
          taken = λ j. omega (
            arith,
            counted j (P.actions.given c) (P.actions.given w'.shared.ext_send)
                (requested a.http_events) x.1,
            counted j (P.actions.taken c ++ P.actions.given c)
                (P.actions.taken w'.shared.ext_send ++ P.actions.given w'.shared.ext_send)
                (requested a.http_events) (simp (ids-append) y.1),
            sum_by-append (replies j) (P.actions.taken c) (P.actions.given c),
            sum_by-append (replies j) (P.actions.taken w'.shared.ext_send)
                (P.actions.given w'.shared.ext_send),
          );
        },
      )
