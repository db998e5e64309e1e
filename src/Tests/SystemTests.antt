-- ===== src/Tests/SystemTests.antt =====
-- The program at work.
use tiny_media_server.Prelude.{
  ℕ, ◌≡◌, refl, String, List, [], ◌∷◌, Option, none, some, Outcome, ok, Ends, map, replace,
}
use tiny_media_server.Net.Mmsg.{update_at}
use tiny_media_server.Io.{HttpRequest, http_request, http_response}
use tiny_media_server.Tests.Bench.{whip_request}
use tiny_media_server.Main.{Main, round, forward, drain, drain_loop}
use tiny_media_server.Controller.{input, pop_action}
use tiny_media_server.Worker.State.{Worker, new}
use tiny_media_server.Prelude.Map.{insert}
use tiny_media_server.Worker.Inbox.{
  not_found, process_bus_recv, process_http, on_http_request, process_tick, pop_tasks,
}
use tiny_media_server.Worker.PopTask.{pop_all}
use tiny_media_server.Worker.Ended.{end_tasks, pop_ended_tasks}
use tiny_media_server.Worker.Udp.{udp_loop, process_udp}
use tiny_media_server.Worker.Cycle.{Arrivals, flush, process_cycle}
use tiny_media_server.System.{
  System, Resources, start_program, env, channels, receive, with_channel, with_queue, main_round,
  worker_cycle, Reach, start, later,
}
use tiny_media_server.System.Accounts.{Accounts, RoundPanic}
use tiny_media_server.System.Safety.{main_never_misses}
use tiny_media_server.Tests.SystemBench.{http, parts, fifo_laws}

abbrev resources : Resources parts
resources = record { socket = []; cert = tt }

-- Two workers.
abbrev fresh : System parts
fresh = start_program parts (resources ∷ resources ∷ []) []

abbrev files : String → Option (List ℕ)
files path = none

-- What a computation gives; `m` if it fails.
abbrev given : {A : Type 0} → A → Outcome A → A
given m (ok a) = a
given m _ = m

-- Nobody serves this path: a worker answers 404.
abbrev nowhere : HttpRequest
nowhere = record whip_request { path = "/nowhere" }

abbrev asked_main : Main http (channels parts)
asked_main = record {
  req_id = 1;
  reqs = (0, nowhere) ∷ [];
  controller = record {
    count = 1;
    joins = ([], http_request nowhere ∷ []) ∷ ([], []) ∷ [];
    worker_recv = ([], []);
  };
  clients = [];
}

abbrev asked : System parts
asked = record fresh { main = asked_main }

-- The round that finds the request.
first_round : round http (channels parts) (some nowhere) files fresh.main ≡ ok asked_main
unfolding round forward input update_at drain drain_loop pop_action insert start_program
first_round = refl

abbrev cycle : Arrivals (env parts)
cycle = record {
  bus_events = [];
  http_events = (http_request nowhere, 3, 10) ∷ [];
  tick_time = 10;
  pop_time = 10;
  udp_clock = λ n. 10;
}

-- What a worker that does not run yet is.
abbrev idle_worker : Worker (env parts)
idle_worker = new (env parts) [] ([], []) [] tt

-- The first worker, once it has answered.
abbrev answered_worker : Worker (env parts)
answered_worker = record idle_worker {
  shared = record idle_worker.shared { ext_send = ([], http_response (not_found nowhere) ∷ []) };
}

first_cycle :
    process_cycle (env parts) cycle (with_channel parts ([], []) idle_worker) ≡ ok answered_worker
unfolding process_cycle new process_bus_recv process_http on_http_request pop_tasks pop_all
    process_tick pop_ended_tasks end_tasks process_udp udp_loop flush
first_cycle = refl

received : map (λ e. e.0) cycle.http_events ≡ (receive parts 1 ([], http_request nowhere ∷ [])).0
unfolding receive
received = refl

abbrev answered : System parts
answered = record {
  main =
      with_queue parts 0 (receive parts 1 ([], http_request nowhere ∷ [])).1
        ([], http_response (not_found nowhere) ∷ []) asked_main;
  workers = replace 0 answered_worker fresh.workers;
}

abbrev answered_reached : Reach parts fresh answered
unfolding start_program
answered_reached =
    later fresh asked answered
      (later fresh fresh asked (start fresh)
        (main_round fresh (some nowhere) files asked_main first_round))
      (worker_cycle asked 0 1 idle_worker answered_worker ([], http_request nowhere ∷ []) cycle refl
        refl received first_cycle)

-- The round that finds the answer.
main_never_misses_example :
    Ends (Accounts parts) RoundPanic (round http (channels parts) none files answered.main)
main_never_misses_example =
    main_never_misses parts (fifo_laws _) (fifo_laws _) (resources ∷ resources ∷ []) [] answered
      none files answered_reached
