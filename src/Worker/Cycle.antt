-- ===== src/Worker/Cycle.antt =====
-- `prepare` and `process_cycle`.
use tiny_media_server.Prelude.{ℕ, List, Outcome, ok, ◌>>=◌}
use tiny_media_server.Io.{IoEvent}
use tiny_media_server.Worker.State.{Env, BusEvent, Worker}
use tiny_media_server.Worker.Inbox.{process_bus_recv, process_http, process_tick, pop_tasks}
use tiny_media_server.Worker.Udp.{process_udp}
use tiny_media_server.Worker.Ended.{pop_ended_tasks}

module _ (E : Env) where
  -- What one cycle finds: the events of the bus and of the controller, and the clock.
  pub record Arrivals : Type 0 where
    pub bus_events : List (BusEvent E.media × (ℕ → ℕ))
    pub http_events : List (IoEvent × ℕ × ℕ)
    pub tick_time : ℕ
    pub pop_time : ℕ
    pub udp_clock : ℕ → ℕ

  unfoldable pub prepare : Worker E → Outcome (Worker E)
  prepare w = do
    socket ← E.udp.prepare w.udp_socket
    ok (record w { shared = record w.shared { udp_socket = socket } })

  -- commit_send_to and finish_read_from; their errors are only logged.
  unfoldable pub flush : Worker E → Outcome (Worker E)
  flush w = do
    (committed, socket) ← E.udp.commit_send_to w.udp_socket
    (finished, socket') ← E.udp.finish_read_from socket
    ok (record w { shared = record w.shared { udp_socket = socket' } })

  unfoldable pub process_cycle : Arrivals → Worker E → Outcome (Worker E)
  unfolding flush
  process_cycle a w = do
    w₁ ← process_bus_recv E a.bus_events w
    w₂ ← process_http E a.http_events w₁
    w₃ ← pop_tasks E a.pop_time (process_tick E a.tick_time w₂)
    w₄ ← pop_ended_tasks E w₃
    w₅ ← process_udp E a.udp_clock w₄
    flush w₅
