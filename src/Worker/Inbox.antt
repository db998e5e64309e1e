-- ===== src/Worker/Inbox.antt =====
-- `process_bus_recv`, `process_http` and `process_tick`, and `pop_tasks`. What a `while let`
-- receives in one call is a list. A clock reading is part of the entry that it belongs to.
pub mod Forwarding
use tiny_media_server.Prelude.{
  ℕ, suc, ◌+◌, List, [], ◌∷◌, map, Option, none, some, Outcome, ok, halt, unexpected_event,
  disconnected_channel, full_channel, ◌>>=◌, nat_key, string_key, ◌==◌, if◌then◌else◌,
}
use tiny_media_server.Prelude.Map.{Map, get, insert}
use tiny_media_server.Io.{
  HttpRequest, HttpResponse, IoEvent, http_request, udp_socket_recv, http_response,
}
use tiny_media_server.Tasks.{WebrtcTaskInput}
use tiny_media_server.Tasks.Session.{expect}
use tiny_media_server.Worker.State.{
  Env, BusEvent, track_media, track_keyframe_request, TaskContainer, container_from, Shared, Worker,
}
use tiny_media_server.Worker.PopTask.{pop_task, pop_all}

-- "Not Found"
abbrev pub not_found : HttpRequest → HttpResponse
not_found req = record {
  req_id = req.req_id;
  status = 404;
  headers = [];
  body = b'N' ∷ b'o' ∷ b't' ∷ b' ' ∷ b'F' ∷ b'o' ∷ b'u' ∷ b'n' ∷ b'd' ∷ [];
}

module _ (E : Env) where
  open E use {new_whip, new_whep, send}

  -- `if let Some(task) = self.tasks.get_mut(id) { task.task.input(now, input); }`
  unfoldable pub give :
      ℕ → ℕ → WebrtcTaskInput E.media → Map ℕ (TaskContainer E) → Outcome (Map ℕ (TaskContainer E))
  give now task_id i tasks = elim (get task_id tasks) [
    | none ↦ ok tasks
    | some c ↦ do
      (acts, t) ← E.task.input now i c.task
      ok (insert task_id (record c { task = t }) tasks)
  ]

  -- The loop over a channel's consumers or sources; `clock n` is the reading for the n-th of them.
  unfoldable pub deliver :
      (ℕ → ℕ)
      → ℕ
      → List ℕ
      → WebrtcTaskInput E.media
      → Map ℕ (TaskContainer E)
      → Outcome (Map ℕ (TaskContainer E))
  unfolding give
  deliver clock n [] i tasks = ok tasks
  deliver clock n (task_id ∷ ids) i tasks = do
    tasks' ← give (clock n) task_id i tasks
    deliver clock (suc n) ids i tasks'

  unfoldable pub on_bus_event :
      (ℕ → ℕ) → BusEvent E.media → Worker E → Outcome (Map ℕ (TaskContainer E))
  unfolding deliver
  on_bus_event clock (track_media media) w = elim (get media.track_id w.bus_channels) [
    | none ↦ ok w.tasks
    | some channel ↦ deliver clock 0 channel.consumers (WebrtcTaskInput.track_media media) w.tasks
  ]
  on_bus_event clock (track_keyframe_request track_id kind) w = elim (get track_id w.bus_channels) [
    | none ↦ ok w.tasks
    | some channel ↦
        deliver clock 0 channel.sources (WebrtcTaskInput.request_keyframe_track track_id kind)
          w.tasks
  ]

  unfoldable pub process_bus_recv :
      List (BusEvent E.media × (ℕ → ℕ)) → Worker E → Outcome (Worker E)
  unfolding on_bus_event
  process_bus_recv [] w = ok w
  process_bus_recv ((e, clock) ∷ es) w = do
    tasks' ← on_bus_event clock e w
    process_bus_recv es (record w { tasks = tasks' })

  -- What both endpoints do with the task that they made, under the id taken from the seed.
  unfoldable pub start_task : ℕ → ℕ → E.task.Task → Worker E → Outcome (Worker E)
  unfolding container_from
  start_task now task_id t w = do
    let ufrags = insert (E.task.ufrag t) task_id w.task_ufrags
    (c, s) ← pop_task E now task_id (container_from E t) w.shared
    ok (record w { shared = s; tasks = insert task_id c w.tasks; task_ufrags = ufrags })

  -- A request with the randomness of its session and the time.
  unfoldable pub on_http_request : HttpRequest → ℕ → ℕ → Worker E → Outcome (Worker E)
  unfolding start_task
  on_http_request req entropy now w =
      let next = record w { task_id_seed = w.task_id_seed + 1 } in
      let addrs = E.udp.local_addr w.udp_socket ∷ [] in
      if req.path == "/whip/endpoint"
      then (do t ← new_whip w.dtls_cert req addrs entropy; start_task now w.task_id_seed t next)
      else if req.path == "/whep/endpoint"
      then (do t ← new_whep w.dtls_cert req addrs entropy; start_task now w.task_id_seed t next)
      else do
        sent ← expect full_channel (send (http_response (not_found req)) w.ext_send)
        ext ← expect disconnected_channel sent
        ok (record w { shared = record w.shared { ext_send = ext } })

  unfoldable pub process_http : List (IoEvent × ℕ × ℕ) → Worker E → Outcome (Worker E)
  unfolding on_http_request
  process_http [] w = ok w
  process_http ((http_request req, entropy, now) ∷ es) w = do
    w' ← on_http_request req entropy now w
    process_http es w'
  process_http ((udp_socket_recv from to buf, entropy, now) ∷ es) w = halt unexpected_event

  unfoldable pub tick_entry : ℕ → ℕ × TaskContainer E → ℕ × TaskContainer E
  tick_entry now (task_id, c) = (task_id, record c { task = (E.task.tick now c.task).1 })

  unfoldable pub process_tick : ℕ → Worker E → Worker E
  process_tick now w = record w { tasks = map (tick_entry now) w.tasks }

  unfoldable pub pop_tasks : ℕ → Worker E → Outcome (Worker E)
  pop_tasks now w = do
    (tasks', s) ← pop_all E now w.tasks w.shared
    ok (record w { tasks = tasks'; shared = s })
