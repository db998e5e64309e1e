-- ===== src/System/Safety.antt =====
-- The states that the program gets to.
use tiny_media_server.Prelude.{
  ℕ, ◌≡◌, refl, ap, ◌∙◌, List, [], ◌∷◌, map, All, Option, some, Ends, String, >>=-eq-ok, get_elem?,
  All-get_elem?, All-replace, sum_by, sum_by-replace, count, arith, ok, ok_injective,
}
use tiny_media_server.Prelude.Map.{get}
use tiny_media_server.Worker.State.{Worker, new}
use tiny_media_server.Worker.Cycle.{Arrivals, prepare}
use tiny_media_server.Worker.Answers.Inbox.{requested}
use tiny_media_server.Main.{Main, round}
use tiny_media_server.System.{
  Parts, System, env, channels, receive, with_queue, Step, main_round, worker_cycle, Reach, start,
  later, worker_prepare, Resources, spawn, start_program,
}
use tiny_media_server.System.Crossbeam.{ChannelLaws}
use tiny_media_server.System.Accounts.{
  asks, replies, asked, accepted-le-asked, RoundPanic, Accounts,
}
use tiny_media_server.System.Rounds.{round-Accounts}
use tiny_media_server.System.Cycles.{IsQuiet, Cycled, receive_lem, cycle_lem, count-requested}

module _ (P : Parts) (el : ChannelLaws P.events) (al : ChannelLaws P.actions) where
  pub record Inv (s : System P) : Type 0 where
    pub accounts : Accounts P s.main
    pub quiet : All (IsQuiet P el al) s.workers

  worker_cycle-Accounts :
      (i n : ℕ) (w' : Worker (env P)) (q : P.events.Chan) (a : Arrivals (env P))
      (m : Main P.http (channels P))
      → Accounts P m
      → get_elem? m.controller.joins i ≡ some q
      → map (λ e. e.0) a.http_events ≡ (receive P n q).0
      → Cycled P el al (requested a.http_events) m.controller.worker_recv w'
      → Accounts P (with_queue P i (receive P n q).1 w'.shared.ext_send m)
  worker_cycle-Accounts i n w' q a m b here got c j =
      let q' = (receive P n q).1 in
      let took = receive_lem P el al n j q in
      let some_ids : count j (requested a.http_events) ≡ sum_by (asks j) (receive P n q).0 =
        count-requested j a.http_events ∙ ap (sum_by (asks j)) got in
      record {
        table = omega (arith, (b j).table, c.taken j);
        only_answers = omega (arith, (b j).only_answers, c.others_given);
        handed = omega (
          arith,
          (b j).handed,
          ap (sum_by (asks j)) took.1,
          sum_by-replace (λ x. sum_by (asks j) (P.events.given x)) i q q' m.controller.joins here,
        );
        answers = omega (
          arith,
          (b j).answers,
          c.given j,
          some_ids,
          took.0,
          sum_by-replace (λ x. sum_by (asks j) (P.events.taken x)) i q q' m.controller.joins here,
        );
      }

  prepare-IsQuiet :
      (w w' : Worker (env P)) → IsQuiet P el al w → prepare (env P) w ≡ ok w' → IsQuiet P el al w'
  unfolding prepare
  prepare-IsQuiet w w' h done =
      let (socket, e, same) = >>=-eq-ok (P.udp.prepare w.udp_socket) _ done in
      rw (← ok_injective same) h

  pub Step-Inv : {s t : System P} → Step P s t → Inv s → Inv t
  Step-Inv (main_round s request files main done) h = record {
    accounts = rw done at (round-Accounts P el al request files s.main h.accounts);
    quiet = h.quiet;
  }
  Step-Inv (worker_prepare s i w w' here done) h = record {
    accounts = h.accounts;
    quiet =
        All-replace (IsQuiet P el al) i w' s.workers
          (prepare-IsQuiet w w' (All-get_elem? (IsQuiet P el al) s.workers i w h.quiet here) done)
          h.quiet;
  }
  Step-Inv (worker_cycle s i n w w' q a w_here q_here got done) h =
      let (quiet', c) =
        cycle_lem P el al a s.main.controller.worker_recv w w'
          (All-get_elem? (IsQuiet P el al) s.workers i w h.quiet w_here) done in
      record {
        accounts = worker_cycle-Accounts i n w' q a s.main h.accounts q_here got c;
        quiet = All-replace (IsQuiet P el al) i w' s.workers quiet' h.quiet;
      }

  Reach-Inv : {r s : System P} → Reach P r s → Inv r → Inv s
  Reach-Inv (start s) h = h
  Reach-Inv (later r s t reach step) h = Step-Inv step (Reach-Inv reach h)

  asked_none :
      (j : ℕ) (worker_send : P.actions.Chan) (bus : P.Bus) (rs : List (Resources P))
      → asked P j (spawn P worker_send bus rs).0 ≡ 0
  unfolding spawn
  asked_none j worker_send bus [] = refl
  asked_none j worker_send bus (r ∷ rs) =
      rw (el.given-bounded 100) (omega (arith, asked_none j worker_send bus rs))

  spawn-IsQuiet :
      (worker_send : P.actions.Chan) (bus : P.Bus) (rs : List (Resources P))
      → All (IsQuiet P el al) (spawn P worker_send bus rs).1
  unfolding spawn new
  spawn-IsQuiet worker_send bus [] = tt
  spawn-IsQuiet worker_send bus (r ∷ rs) = (tt, spawn-IsQuiet worker_send bus rs)

  start-Inv :
      (rs : List (Resources P)) (clients : P.http.Clients) → Inv (start_program P rs clients)
  unfolding start_program get
  start-Inv rs clients =
      let c = P.actions.bounded 100 in
      let joins = (spawn P c (P.new_bus 1000) rs).0 in
      record {
        accounts = λ j.
            let nothing : sum_by (replies j) (P.actions.given c) ≡ 0 =
              rw (al.given-bounded 100) refl in
            record {
              table = ground (arith, nothing, al.taken-le-given (replies j) c);
              handed = omega (arith, asked_none j c (P.new_bus 1000) rs);
              only_answers = rw (al.given-bounded 100) refl;
              answers = omega (
                arith,
                nothing,
                asked_none j c (P.new_bus 1000) rs,
                accepted-le-asked P el j joins,
              );
            };
        quiet = spawn-IsQuiet c (P.new_bus 1000) rs;
      }

  -- Over channels that deliver what they are given at most once, in any state that the program
  -- reaches from its start with any workers, by rounds of the main loop and by prepare and cycles
  -- of the workers in any order, the next round of the main loop ends in balanced accounts (each
  -- request id that was given out is open or its answer was taken, once, and went to one worker at
  -- most, and the workers have sent nothing but answers) or in a panic of RoundPanic, among which
  -- there is none for an answer without a request and none for an action that is no answer.
  pub main_never_misses :
      (rs : List (Resources P)) (clients : P.http.Clients) (s : System P)
      (request : Option P.http.Request) (files : String → Option (List ℕ))
      → Reach P (start_program P rs clients) s
      → Ends (Accounts P) RoundPanic (round P.http (channels P) request files s.main)
  main_never_misses rs clients s request files reach =
      round-Accounts P el al request files s.main (Reach-Inv reach (start-Inv rs clients)).accounts
