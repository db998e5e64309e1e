-- ===== src/Server.antt =====
-- The worker on the tasks of the repository: `Env` filled with `ComposeTask` and its constructors,
-- over any str0m, socket, channels and STUN reader; and a worker's life, the thread that
-- src/controller.rs spawns for it.
pub mod Answers
pub mod Offers
pub mod Ids
pub mod Relay
pub mod Keyframe
pub mod Thread
pub mod Platforms
use tiny_media_server.Prelude.{
  ℕ, String, List, [], ◌∷◌, All, Bool, Option, Outcome, ok, Ends, Ends-bind, ◌>>=◌,
}
use tiny_media_server.Prelude.SocketAddr.{SocketAddr}
use tiny_media_server.Io.{HttpRequest, IoAction}
use tiny_media_server.Net.{UdpSocketGeneric, UdpLaws}
use tiny_media_server.Tasks.Str0m.{Media}
use tiny_media_server.Tasks.Rtc.{RtcApi, RtcLaws}
use tiny_media_server.Tasks.Session.Laws.{NewPanic}
use tiny_media_server.Tasks.Roles.{source, consumer}
use tiny_media_server.Tasks.Whip
use tiny_media_server.Tasks.Whep
use tiny_media_server.Tasks.Compose.{ComposeTask, whip, whep, compose_task}
use tiny_media_server.Tasks.Compose.Laws.{Plays, compose_laws}
use tiny_media_server.Worker.State.{Env, BusEvent, Worker, new}
use tiny_media_server.Worker.Cycle.{Arrivals, process_cycle}
use tiny_media_server.Worker.Invariant.{EnvLaws, IsRouted, CycleHalt}
use tiny_media_server.Worker.Invariant.Http.{IsHttp}
use tiny_media_server.Worker.Invariant.Cycle.{new-IsRouted, process_cycle-Ends}

-- The crates that carry messages between threads, and the STUN reader.
pub record Crates (m : Media) : Type 1 where
  pub ExtSender : Type 0
  pub try_send : IoAction → ExtSender → Bool × ExtSender
  pub send : IoAction → ExtSender → Option (Option ExtSender)
  pub Bus : Type 0
  pub broadcast : BusEvent m → Bus → Option Bus
  pub decode : List ℕ → Option (Option String)

module _ (m : Media) (r : RtcApi m) (u : UdpSocketGeneric) (c : Crates m) where
  -- ComposeTask::Whip(WhipServerTask::new(..)), and the same for viewers.
  unfoldable pub new_whip :
      r.DtlsCert → HttpRequest → List SocketAddr → ℕ → Outcome (ComposeTask m r)
  new_whip cert req addrs entropy = do t ← Whip.new m r cert req addrs entropy; ok (whip t)

  unfoldable pub new_whep :
      r.DtlsCert → HttpRequest → List SocketAddr → ℕ → Outcome (ComposeTask m r)
  new_whep cert req addrs entropy = do t ← Whep.new m r cert req addrs entropy; ok (whep t)

  abbrev pub server_env : Env
  server_env = record {
    media = m;
    task = compose_task m r;
    DtlsCert = r.DtlsCert;
    new_whip = new_whip;
    new_whep = new_whep;
    udp = u;
    ExtSender = c.ExtSender;
    try_send = c.try_send;
    send = c.send;
    Bus = c.Bus;
    broadcast = c.broadcast;
    decode = c.decode;
  }

  pub new_whip-Ends :
      (cert : r.DtlsCert) (req : HttpRequest) (addrs : List SocketAddr) (entropy : ℕ)
      → Ends (Plays m r source) NewPanic (new_whip cert req addrs entropy)
  unfolding new_whip
  new_whip-Ends cert req addrs entropy =
      Ends-bind (Whip.Laws.IsPublisher m r) (Plays m r source) NewPanic
        (Whip.new m r cert req addrs entropy) _ (Whip.Laws.new-Ends m r cert req addrs entropy)
        λ t _ p. p

  pub new_whep-Ends :
      (cert : r.DtlsCert) (req : HttpRequest) (addrs : List SocketAddr) (entropy : ℕ)
      → Ends (Plays m r consumer) NewPanic (new_whep cert req addrs entropy)
  unfolding new_whep
  new_whep-Ends cert req addrs entropy =
      Ends-bind (Whep.Laws.IsViewer m r) (Plays m r consumer) NewPanic
        (Whep.new m r cert req addrs entropy) _ (Whep.Laws.new-Ends m r cert req addrs entropy)
        λ t _ p. p

  abbrev pub server_laws : RtcLaws r → UdpLaws u → EnvLaws server_env
  server_laws rtc udp = record {
    tasks = compose_laws m r rtc;
    udp = udp;
    new_whip-Ends = new_whip-Ends;
    new_whep-Ends = new_whep-Ends;
  }

-- `while let Some(_) = worker.process_cycle()`: `process_cycle` always answers `Some`, so the loop
-- runs as long as cycles are given.
module _ (E : Env) where
  unfoldable pub run : List (Arrivals E) → Worker E → Outcome (Worker E)
  run [] w = ok w
  run (a ∷ as_) w = do w' ← process_cycle E a w; run as_ w'

  pub run-Ends :
      (laws : EnvLaws E) (cycles : List (Arrivals E)) (w : Worker E)
      → All (λ (a : Arrivals E). All IsHttp a.http_events) cycles
      → IsRouted E laws w
      → Ends (IsRouted E laws) (CycleHalt E) (run cycles w)
  unfolding run
  run-Ends laws [] w http h = h
  run-Ends laws (a ∷ as_) w http h =
      Ends-bind (IsRouted E laws) (IsRouted E laws) (CycleHalt E) (process_cycle E a w) _
        (process_cycle-Ends E laws a w http.0 h) λ w' _ h'. run-Ends laws as_ w' http.1 h'

-- A worker of the server, over any str0m whose sessions run dry when polled and any socket that
-- meets the trait's laws, started fresh on a socket in a state that these laws are about and given
-- any bus events, HTTP requests and datagrams for any number of cycles, comes to the end of the
-- last cycle as a routed worker, unless it halts as CycleHalt lists: in a panic, or, if the bus or
-- the channel to the controller can lack room, in a wait for it that does not end. No loop of a
-- cycle goes on for ever by itself, and among the panics there is none for an event that a task or
-- the worker should not receive.
pub server_runs :
    (m : Media) (r : RtcApi m) (u : UdpSocketGeneric) (c : Crates m) (rtc : RtcLaws r)
    (udp : UdpLaws u) (socket : u.Socket) (ext : c.ExtSender) (bus : c.Bus) (cert : r.DtlsCert)
    (cycles : List (Arrivals (server_env m r u c)))
    → udp.Holds socket
    → All (λ (a : Arrivals (server_env m r u c)). All IsHttp a.http_events) cycles
    → Ends
        (IsRouted (server_env m r u c) (server_laws m r u c rtc udp))
        (CycleHalt (server_env m r u c))
        (run (server_env m r u c) cycles (new (server_env m r u c) socket ext bus cert))
server_runs m r u c rtc udp socket ext bus cert cycles up http =
    run-Ends (server_env m r u c) (server_laws m r u c rtc udp) cycles _ http
      (new-IsRouted (server_env m r u c) (server_laws m r u c rtc udp) socket ext bus cert up)
