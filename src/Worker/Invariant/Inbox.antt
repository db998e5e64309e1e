-- ===== src/Worker/Invariant/Inbox.antt =====
-- `process_bus_recv`, `process_http`, `process_tick` and `pop_tasks` keep the invariant.
use tiny_media_server.Prelude.{
  ℕ, suc, ◌≡◌, List, [], ◌∷◌, map, All, Ends, Ends-bind, Option-cases, inl, inr, nat_key,
  string_key, Halt, Ends-weaken,
}
use tiny_media_server.Prelude.Map.{Map, get, All-get, All-insert}
use tiny_media_server.Tasks.{WebrtcTaskInput}
use tiny_media_server.Tasks.Roles.{Role, source, consumer, Takes, InputPanic}
use tiny_media_server.Worker.State.{
  Env, BusEvent, track_media, track_keyframe_request, TaskContainer, Worker,
}
use tiny_media_server.Worker.PopTask.{pop_all}
use tiny_media_server.Worker.Inbox.{
  give, deliver, on_bus_event, process_bus_recv, tick_entry, process_tick, pop_tasks,
}
use tiny_media_server.Worker.Invariant.{
  EnvLaws, IsKind, ChannelFits, TaskFits, TasksFit, Fits, PopHalt,
}
use tiny_media_server.Worker.Invariant.PopTask.{AllPopped, pop_all-Ends}

module _ (E : Env) (laws : EnvLaws E) (role : ℕ → Role) where
  -- Tasks of the role take the input, and end in no panic but `Q`.
  abbrev pub Accepts : Role → (Halt → Type 0) → WebrtcTaskInput E.media → Type 0
  Accepts k Q i =
      (now : ℕ) (t : E.task.Task)
      → laws.tasks.Plays k t
      → Ends (λ s. laws.tasks.Plays k s.1) Q (E.task.input now i t)

  pub Takes-Accepts :
      (k : Role) (i : WebrtcTaskInput E.media) → Takes E.media k i → Accepts k InputPanic i
  Takes-Accepts k i takes now t plays =
      Ends-weaken _ (λ s. laws.tasks.Plays k s.1) InputPanic InputPanic (E.task.input now i t)
        (laws.tasks.input-Ends k now i t plays takes) (λ s d. d.0) (λ p q. q)

  give-Ends :
      (Q : Halt → Type 0) (seed now task_id : ℕ) (k : Role) (i : WebrtcTaskInput E.media)
      (tasks : Map ℕ (TaskContainer E))
      → role task_id ≡ k
      → Accepts k Q i
      → TasksFit E laws role seed tasks
      → Ends (TasksFit E laws role seed) Q (give E now task_id i tasks)
  unfolding give
  give-Ends Q seed now task_id k i tasks e accepts fit = elim (Option-cases (get task_id tasks)) [
    | inl missing ↦ rw (missing, give, Ends) fit
    | inr (c, found) ↦
        let here = All-get (TaskFits E laws role seed) task_id tasks c fit found in
        rw (found, give, Ends)
          (Ends-bind (λ s. laws.tasks.Plays k s.1) (TasksFit E laws role seed) Q
            (E.task.input now i c.task) _ (accepts now c.task (rw e at here.0))
            λ (acts, t) _ d.
              All-insert (TaskFits E laws role seed) task_id (record c { task = t }) tasks
                (rw e d, here.1) fit)
  ]

  pub deliver-Ends :
      (Q : Halt → Type 0) (seed : ℕ) (clock : ℕ → ℕ) (n : ℕ) (ids : List ℕ) (k : Role)
      (i : WebrtcTaskInput E.media) (tasks : Map ℕ (TaskContainer E))
      → All (IsKind role seed k) ids
      → Accepts k Q i
      → TasksFit E laws role seed tasks
      → Ends (TasksFit E laws role seed) Q (deliver E clock n ids i tasks)
  unfolding deliver
  deliver-Ends Q seed clock n [] k i tasks kinds accepts fit = fit
  deliver-Ends Q seed clock n (task_id ∷ ids) k i tasks kinds accepts fit =
      Ends-bind (TasksFit E laws role seed) (TasksFit E laws role seed) Q
        (give E (clock n) task_id i tasks) _
        (give-Ends Q seed (clock n) task_id k i tasks kinds.0.0 accepts fit)
        λ tasks' _ fit'. deliver-Ends Q seed clock (suc n) ids k i tasks' kinds.1 accepts fit'

  on_bus_event-Ends :
      (clock : ℕ → ℕ) (e : BusEvent E.media) (w : Worker E)
      → Fits E laws role w
      → Ends (TasksFit E laws role w.task_id_seed) InputPanic (on_bus_event E clock e w)
  unfolding on_bus_event
  on_bus_event-Ends clock (track_media media) w h =
      elim (Option-cases (get media.track_id w.bus_channels)) [
        | inl missing ↦ rw (missing, on_bus_event, Ends) h.tasks_fit
        | inr (channel, found) ↦
            rw (found, on_bus_event, Ends)
              (deliver-Ends InputPanic w.task_id_seed clock 0 channel.consumers consumer
                (WebrtcTaskInput.track_media media) w.tasks
                (All-get (ChannelFits role w.task_id_seed) media.track_id w.bus_channels channel
                  h.channels_fit found).1
                (Takes-Accepts consumer (WebrtcTaskInput.track_media media) tt) h.tasks_fit)
      ]
  on_bus_event-Ends clock (track_keyframe_request track_id kind) w h =
      elim (Option-cases (get track_id w.bus_channels)) [
        | inl missing ↦ rw (missing, on_bus_event, Ends) h.tasks_fit
        | inr (channel, found) ↦
            rw (found, on_bus_event, Ends)
              (deliver-Ends InputPanic w.task_id_seed clock 0 channel.sources source
                (WebrtcTaskInput.request_keyframe_track track_id kind) w.tasks
                (All-get (ChannelFits role w.task_id_seed) track_id w.bus_channels channel
                  h.channels_fit found).0
                (Takes-Accepts source (WebrtcTaskInput.request_keyframe_track track_id kind) tt)
                h.tasks_fit)
      ]

  pub process_bus_recv-Ends :
      (es : List (BusEvent E.media × (ℕ → ℕ))) (w : Worker E)
      → Fits E laws role w
      → Ends (Fits E laws role) InputPanic (process_bus_recv E es w)
  unfolding process_bus_recv
  process_bus_recv-Ends [] w h = h
  process_bus_recv-Ends ((e, clock) ∷ es) w h =
      Ends-bind (TasksFit E laws role w.task_id_seed) (Fits E laws role) InputPanic
        (on_bus_event E clock e w) _ (on_bus_event-Ends clock e w h)
        λ tasks' _ fit.
          process_bus_recv-Ends es (record w { tasks = tasks' })
            (record { tasks_fit = fit; channels_fit = h.channels_fit; holds = h.holds })

  tick_entries-TasksFit :
      (seed now : ℕ) (tasks : Map ℕ (TaskContainer E))
      → TasksFit E laws role seed tasks
      → TasksFit E laws role seed (map (tick_entry E now) tasks)
  unfolding tick_entry
  tick_entries-TasksFit seed now [] fit = tt
  tick_entries-TasksFit seed now ((task_id, c) ∷ tasks) fit = (
    (laws.tasks.tick-Plays (role task_id) now c.task fit.0.0, fit.0.1),
    tick_entries-TasksFit seed now tasks fit.1,
  )

  pub process_tick-Fits :
      (now : ℕ) (w : Worker E) → Fits E laws role w → Fits E laws role (process_tick E now w)
  unfolding process_tick
  process_tick-Fits now w h = record {
    tasks_fit = tick_entries-TasksFit w.task_id_seed now w.tasks h.tasks_fit;
    channels_fit = h.channels_fit;
    holds = h.holds;
  }

  pub pop_tasks-Ends :
      (now : ℕ) (w : Worker E)
      → Fits E laws role w
      → Ends (Fits E laws role) (PopHalt E) (pop_tasks E now w)
  unfolding pop_tasks
  pop_tasks-Ends now w h =
      Ends-bind (AllPopped E laws role w.task_id_seed w.tasks w.shared) (Fits E laws role)
        (PopHalt E) (pop_all E now w.tasks w.shared) _
        (pop_all-Ends E laws role w.task_id_seed now w.tasks w.shared h.tasks_fit h.channels_fit
          h.holds)
        λ (tasks', s) _ d. record {
          tasks_fit = d.tasks_fit;
          channels_fit = d.channels_fit;
          holds = d.holds;
        }
