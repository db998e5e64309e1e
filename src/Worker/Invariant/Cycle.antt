-- ===== src/Worker/Invariant/Cycle.antt =====
-- A whole cycle comes to an end and keeps the invariant.
use tiny_media_server.Prelude.{
  ℕ, All, Outcome, ok, Halt, Ends, Ends-bind, Ends-weaken, missing_task,
}
use tiny_media_server.Net.{SocketPanic}
use tiny_media_server.Tasks.Roles.{Role, source}
use tiny_media_server.Worker.State.{Env, Worker, new}
use tiny_media_server.Worker.Inbox.{process_bus_recv, process_http, process_tick, pop_tasks}
use tiny_media_server.Worker.Ended.{pop_ended_tasks}
use tiny_media_server.Worker.Udp.{process_udp}
use tiny_media_server.Worker.Cycle.{Arrivals, prepare, flush, process_cycle}
use tiny_media_server.Worker.Invariant.{
  EnvLaws, Fits, IsRouted, CycleHalt, InputPanic-CycleHalt, SocketPanic-CycleHalt,
  PopHalt-CycleHalt,
}
use tiny_media_server.Worker.Invariant.Inbox.{
  process_bus_recv-Ends, process_tick-Fits, pop_tasks-Ends,
}
use tiny_media_server.Worker.Invariant.Http.{IsHttp, process_http-Ends}
use tiny_media_server.Worker.Invariant.Ended.{EndedPanic, pop_ended_tasks-Ends}
use tiny_media_server.Worker.Invariant.Udp.{process_udp-Ends}

EndedPanic-CycleHalt : (E : Env) (p : Halt) → EndedPanic p → CycleHalt E p
EndedPanic-CycleHalt E missing_task h = tt
EndedPanic-CycleHalt E _ h = absurd h

module _ (E : Env) (laws : EnvLaws E) where
  flush-Ends : (w : Worker E) → IsRouted E laws w → Ends (IsRouted E laws) SocketPanic (flush E w)
  unfolding flush
  flush-Ends w h =
      Ends-bind (λ x. laws.udp.Holds x.1) (IsRouted E laws) SocketPanic
        (E.udp.commit_send_to w.udp_socket) _ (laws.udp.commit-Ends w.udp_socket h.fits.holds)
        λ (committed, socket) _ up.
          Ends-bind (λ x. laws.udp.Holds x.1) (IsRouted E laws) SocketPanic
            (E.udp.finish_read_from socket)
            (λ x. ok (record w { shared = record w.shared { udp_socket = x.1 } }))
            (laws.udp.finish-Ends socket up)
            λ (finished, socket') _ up'. record {
              role = h.role;
              fits = record {
                tasks_fit = h.fits.tasks_fit;
                channels_fit = h.fits.channels_fit;
                holds = up';
              };
            }

  -- The same with the roles hidden and the panics those of a cycle.
  hide :
      (role : ℕ → Role) (Q : Halt → Type 0) (r : Outcome (Worker E))
      → ((p : Halt) → Q p → (CycleHalt E) p)
      → Ends (Fits E laws role) Q r
      → Ends (IsRouted E laws) (CycleHalt E) r
  hide role Q r weaker h =
      Ends-weaken (Fits E laws role) (IsRouted E laws) Q (CycleHalt E) r h
        (λ w fits. record { role = role; fits = fits }) weaker

  -- A fresh worker is routed.
  pub new-IsRouted :
      (socket : E.udp.Socket) (ext : E.ExtSender) (bus : E.Bus) (cert : E.DtlsCert)
      → laws.udp.Holds socket
      → IsRouted E laws (new E socket ext bus cert)
  unfolding new
  new-IsRouted socket ext bus cert up = record {
    role = λ _. source;
    fits = record { tasks_fit = tt; channels_fit = tt; holds = up };
  }

  pub prepare-IsRouted :
      (w : Worker E) → IsRouted E laws w → Ends (IsRouted E laws) (CycleHalt E) (prepare E w)
  unfolding prepare
  prepare-IsRouted w h =
      Ends-bind laws.udp.Holds (IsRouted E laws) (CycleHalt E) (E.udp.prepare w.udp_socket) _
        (Ends-weaken laws.udp.Holds laws.udp.Holds SocketPanic (CycleHalt E)
          (E.udp.prepare w.udp_socket) (laws.udp.prepare-Ends w.udp_socket h.fits.holds)
          (λ s up. up) (SocketPanic-CycleHalt E))
        λ socket _ up. record {
          role = h.role;
          fits = record {
            tasks_fit = h.fits.tasks_fit;
            channels_fit = h.fits.channels_fit;
            holds = up;
          };
        }

  -- One cycle, over any tasks and socket that meet their interfaces' laws: from a routed worker
  -- and HTTP events that are requests, process_cycle returns a routed worker, unless it halts as
  -- CycleHalt lists: in a panic, or, if the bus or the channel to the controller can lack room, in
  -- a wait for it that does not end.
  pub process_cycle-Ends :
      (a : Arrivals E) (w : Worker E)
      → All IsHttp a.http_events
      → IsRouted E laws w
      → Ends (IsRouted E laws) (CycleHalt E) (process_cycle E a w)
  unfolding process_cycle
  process_cycle-Ends a w http h =
      Ends-bind (IsRouted E laws) (IsRouted E laws) (CycleHalt E)
        (process_bus_recv E a.bus_events w) _
        (hide h.role _ _ (InputPanic-CycleHalt E)
          (process_bus_recv-Ends E laws h.role a.bus_events w h.fits))
        λ w₁ _ h₁.
          Ends-bind (IsRouted E laws) (IsRouted E laws) (CycleHalt E)
            (process_http E a.http_events w₁) _ (process_http-Ends E laws a.http_events w₁ http h₁)
            λ w₂ _ h₂.
              Ends-bind (IsRouted E laws) (IsRouted E laws) (CycleHalt E)
                (pop_tasks E a.pop_time (process_tick E a.tick_time w₂)) _
                (hide h₂.role _ _ (PopHalt-CycleHalt E) (
                  pop_tasks-Ends E laws h₂.role a.pop_time _
                    (process_tick-Fits E laws h₂.role a.tick_time w₂ h₂.fits)))
                λ w₃ _ h₃.
                  Ends-bind (IsRouted E laws) (IsRouted E laws) (CycleHalt E) (pop_ended_tasks E w₃)
                    _
                    (hide h₃.role _ _ (EndedPanic-CycleHalt E)
                      (pop_ended_tasks-Ends E laws h₃.role w₃ h₃.fits))
                    λ w₄ _ h₄.
                      Ends-bind (IsRouted E laws) (IsRouted E laws) (CycleHalt E)
                        (process_udp E a.udp_clock w₄) _
                        (hide h₄.role _ _ (λ p q. q)
                          (process_udp-Ends E laws h₄.role a.udp_clock w₄ h₄.fits))
                        λ w₅ _ h₅.
                          Ends-weaken (IsRouted E laws) (IsRouted E laws) SocketPanic (CycleHalt E)
                            (flush E w₅) (flush-Ends w₅ h₅) (λ w p. p) (SocketPanic-CycleHalt E)
