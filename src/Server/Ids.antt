-- ===== src/Server/Ids.antt =====
-- The ids of the tasks that a request leaves.
use tiny_media_server.Prelude.{ℕ, Ends, Ends-Yields}
use tiny_media_server.Io.{HttpRequest}
use tiny_media_server.Worker.State.{Env, Worker}
use tiny_media_server.Worker.Inbox.{on_http_request}
use tiny_media_server.Worker.Invariant.{EnvLaws, IsRouted, CycleHalt}
use tiny_media_server.Worker.Invariant.Http.{on_http_request-Ends}
use tiny_media_server.Worker.Ids.{IsSeeded, Keeps, on_http_request-Keeps}

module _ (E : Env) where
  -- Over any tasks and socket that meet their interfaces' laws, a request to a routed worker whose
  -- tasks' ids are below its seed leaves such a worker, in which every task that was there is
  -- under its id as it was, unless it halts as CycleHalt lists: in a panic, or, if the bus or the
  -- channel to the controller can lack room, in a wait for it that does not end.
  pub on_http_request_lem :
      (laws : EnvLaws E) (req : HttpRequest) (entropy now : ℕ) (w : Worker E)
      → IsRouted E laws w
      → IsSeeded E w
      → Ends
          (λ w'. IsRouted E laws w' × (IsSeeded E w' × Keeps E w w'))
          (CycleHalt E)
          (on_http_request E req entropy now w)
  on_http_request_lem laws req entropy now w routed seeded =
      Ends-Yields (IsRouted E laws) (λ w'. IsSeeded E w' × Keeps E w w') (CycleHalt E)
        (on_http_request E req entropy now w) (on_http_request-Ends E laws req entropy now w routed)
        (on_http_request-Keeps E req entropy now w seeded)
