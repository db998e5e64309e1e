-- ===== src/System.antt =====
-- The program: the main thread of src/main.rs with its controller, and the worker threads. A step
-- is one round of the main loop, or the `prepare` or one cycle of one worker, in any order. The bus may give a
-- worker anything. A worker that panics takes no further step.
pub mod Crossbeam
pub mod Accounts
pub mod Rounds
pub mod Cycles
pub mod Safety
pub mod Startup
use tiny_media_server.Prelude.{
  ℕ, zero, suc, ◌≡◌, String, List, [], ◌∷◌, map, Bool, Option, none, some, Outcome, ok, get_elem?,
  replace,
}
use tiny_media_server.Io.{IoEvent, IoAction}
use tiny_media_server.Net.{UdpSocketGeneric}
use tiny_media_server.Tasks.Str0m.{Media}
use tiny_media_server.Tasks.Rtc.{RtcApi}
use tiny_media_server.Worker.State.{Env, BusEvent, Shared, Worker, new}
use tiny_media_server.Worker.Cycle.{Arrivals, prepare, process_cycle}
use tiny_media_server.Controller.{Channels, Controller}
use tiny_media_server.Main.{TinyHttp, Main, round}
use tiny_media_server.Server.{Crates, server_env}
use tiny_media_server.System.Crossbeam.{Channel}

-- Everything that the program is built on.
pub record Parts : Type 1 where
  pub media : Media
  pub rtc : RtcApi media
  pub udp : UdpSocketGeneric
  pub Bus : Type 0
  -- Bus::new, with its number of places.
  pub new_bus : ℕ → Bus
  pub broadcast : BusEvent media → Bus → Option Bus
  pub decode : List ℕ → Option (Option String)
  pub http : TinyHttp
  pub events : Channel IoEvent
  pub actions : Channel IoAction

module _ (P : Parts) where
  open P use {events, actions}

  abbrev pub crates : Crates P.media
  crates = record {
    ExtSender = actions.Chan;
    try_send = actions.try_send;
    send = actions.send;
    Bus = P.Bus;
    broadcast = P.broadcast;
    decode = P.decode;
  }

  abbrev pub env : Env
  env = server_env P.media P.rtc P.udp crates

  abbrev pub channels : Channels
  channels = record {
    Sender = events.Chan;
    Receiver = actions.Chan;
    try_send = events.try_send;
    try_recv = actions.try_recv;
    waiting = actions.waiting;
  }

  -- The workers' queues of events are the controller's `joins`, and the one channel that all of
  -- them send to is its `worker_recv`.
  pub record System : Type 0 where
    pub main : Main P.http channels
    pub workers : List (Worker env)

  -- What a `while let Ok(event) = ext_recv.try_recv()` gets that ends after `n` events at the most.
  unfoldable pub receive : ℕ → events.Chan → List IoEvent × events.Chan
  receive zero q = ([], q)
  receive (suc n) q =
      let (got, q') = events.try_recv q in
      elim got [ none ↦ ([], q') | some e ↦ let (es, q'') = receive n q' in (e ∷ es, q'') ]

  -- The worker with the channel as the other threads left it.
  abbrev pub with_channel : actions.Chan → Worker env → Worker env
  with_channel c w = record w { shared = record w.shared { ext_send = c } }

  abbrev pub with_queue :
      ℕ → events.Chan → actions.Chan → Main P.http channels → Main P.http channels
  with_queue i q c m = record m {
    controller = record m.controller { joins = replace i q m.controller.joins; worker_recv = c };
  }

  -- The socket and the certificate that a worker opens.
  pub record Resources : Type 0 where
    pub socket : P.udp.Socket
    pub cert : P.rtc.DtlsCert

  -- The loop of Controller::new: a queue of events for each worker.
  unfoldable pub spawn :
      actions.Chan → P.Bus → List Resources → List events.Chan × List (Worker env)
  spawn worker_send bus [] = ([], [])
  spawn worker_send bus (r ∷ rs) =
      let (joins, workers) = spawn worker_send bus rs in
      (events.bounded 100 ∷ joins, new env r.socket worker_send bus r.cert ∷ workers)

  -- The program when its loop begins.
  unfoldable pub start_program : List Resources → P.http.Clients → System
  unfolding spawn
  start_program rs clients =
      let bus = P.new_bus 1000 in
      let worker_send = actions.bounded 100 in
      let (joins, workers) = spawn worker_send bus rs in
      record {
        main = record {
          req_id = 0;
          reqs = [];
          controller = record { count = 0; joins = joins; worker_recv = worker_send };
          clients = clients;
        };
        workers = workers;
      }

  pub data Step : System → System → Type 0 where
    main_round :
        (s : System) (request : Option P.http.Request) (files : String → Option (List ℕ))
        (main : Main P.http channels)
        → round P.http channels request files s.main ≡ ok main
        → Step s (record s { main = main })
    worker_prepare :
        (s : System) (i : ℕ) (w w' : Worker env)
        → get_elem? s.workers i ≡ some w
        → prepare env w ≡ ok w'
        → Step s (record s { workers = replace i w' s.workers })
    worker_cycle :
        (s : System) (i n : ℕ) (w w' : Worker env) (q : events.Chan) (a : Arrivals env)
        → get_elem? s.workers i ≡ some w
        → get_elem? s.main.controller.joins i ≡ some q
        → map (λ e. e.0) a.http_events ≡ (receive n q).0
        → process_cycle env a (with_channel s.main.controller.worker_recv w) ≡ ok w'
        → Step s (record {
          main = with_queue i (receive n q).1 w'.shared.ext_send s.main;
          workers = replace i w' s.workers;
        })

  -- The states that the program gets to.
  pub data Reach : System → System → Type 0 where
    start : (s : System) → Reach s s
    later : (r s t : System) → Reach r s → Step s t → Reach r t
