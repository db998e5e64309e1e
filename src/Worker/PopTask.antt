-- ===== src/Worker/PopTask.antt =====
-- `pop_task` and `pop_tasks`: carry out what the tasks say until they say nothing more.
pub mod Tracks
pub mod Room
use tiny_media_server.Prelude.{
  ℕ, zero, suc, List, [], ◌∷◌, ◌++◌, Option, none, some, Outcome, ok, out_of_fuel, full_bus, ◌>>=◌,
  nat_key,
}
use tiny_media_server.Prelude.Map.{Map, or_insert, modify}
use tiny_media_server.Io.{http_response, udp_socket_send}
use tiny_media_server.Tasks.{WebrtcTaskOutput}
use tiny_media_server.Tasks.Session.{expect}
use tiny_media_server.Worker.State.{
  Env, BusEvent, track_media, track_keyframe_request, BusChannelContainer, TaskContainer, Shared,
}

abbrev pub empty_channel : BusChannelContainer
empty_channel = record { sources = []; consumers = [] }

-- bus_channels.entry(track_id).or_insert(..).sources.push(task_id)
unfoldable pub add_source : ℕ → ℕ → Map ℕ BusChannelContainer → Map ℕ BusChannelContainer
add_source track_id task_id channels =
    modify track_id (λ c. record c { sources = c.sources ++ task_id ∷ [] })
      (or_insert track_id empty_channel channels)

unfoldable pub add_consumer : ℕ → ℕ → Map ℕ BusChannelContainer → Map ℕ BusChannelContainer
add_consumer track_id task_id channels =
    modify track_id (λ c. record c { consumers = c.consumers ++ task_id ∷ [] })
      (or_insert track_id empty_channel channels)

module _ (E : Env) where
  open E use {try_send, broadcast}

  -- The body of the loop of `pop_task`.
  unfoldable pub handle_action :
      ℕ
      → WebrtcTaskOutput E.media
      → TaskContainer E
      → Shared E
      → Outcome (TaskContainer E × Shared E)
  handle_action task_id (WebrtcTaskOutput.io (udp_socket_send from to buf)) c s = do
    (sent, socket) ← E.udp.add_send_to buf to s.udp_socket
    ok (c, record s { udp_socket = socket })
  handle_action task_id (WebrtcTaskOutput.io (http_response res)) c s =
      ok (c, record s { ext_send = (try_send (http_response res) s.ext_send).1 })
  handle_action task_id (WebrtcTaskOutput.track_media media) c s = do
    bus ← expect full_bus (broadcast (track_media media) s.bus_send)
    ok (c, record s { bus_send = bus })
  handle_action task_id (WebrtcTaskOutput.request_keyframe_track track_id kind) c s = do
    bus ← expect full_bus (broadcast (track_keyframe_request track_id kind) s.bus_send)
    ok (c, record s { bus_send = bus })
  handle_action task_id WebrtcTaskOutput.task_ended c s =
      ok (c, record s { ended_tasks = s.ended_tasks ++ task_id ∷ [] })
  handle_action task_id (WebrtcTaskOutput.publish_track track_id) c s = ok (
    record c { pub_channels = c.pub_channels ++ track_id ∷ [] },
    record s { bus_channels = add_source track_id task_id s.bus_channels },
  )
  handle_action task_id (WebrtcTaskOutput.subscribe_track track_id) c s = ok (
    record c { sub_channels = c.sub_channels ++ track_id ∷ [] },
    record s { bus_channels = add_consumer track_id task_id s.bus_channels },
  )

  -- `while let Some(action) = task.task.pop_action(now)`, on fuel
  unfoldable pub pop_loop :
      ℕ → ℕ → ℕ → TaskContainer E → Shared E → Outcome (TaskContainer E × Shared E)
  pop_loop zero now task_id c s = out_of_fuel
  pop_loop (suc fuel) now task_id c s =
      let (said, t) = E.task.pop_action now c.task in
      elim said [
        | none ↦ ok (record c { task = t }, s)
        | some action ↦ do
          (c', s') ← handle_action task_id action (record c { task = t }) s
          pop_loop fuel now task_id c' s'
      ]

  -- The fuel is one round more than the task has to say.
  unfoldable pub pop_task :
      ℕ → ℕ → TaskContainer E → Shared E → Outcome (TaskContainer E × Shared E)
  pop_task now task_id c s = pop_loop (suc (E.task.pending c.task)) now task_id c s

  unfoldable pub pop_all :
      ℕ → Map ℕ (TaskContainer E) → Shared E → Outcome (Map ℕ (TaskContainer E) × Shared E)
  pop_all now [] s = ok ([], s)
  pop_all now ((task_id, c) ∷ tasks) s = do
    (c', s') ← pop_task now task_id c s
    (tasks', s'') ← pop_all now tasks s'
    ok ((task_id, c') ∷ tasks', s'')
