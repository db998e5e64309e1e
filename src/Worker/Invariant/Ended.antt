-- ===== src/Worker/Invariant/Ended.antt =====
-- `pop_ended_tasks` keeps the invariant, and panics only over a task that is not there.
use tiny_media_server.Prelude.{
  ℕ, List, [], ◌∷◌, All-retain, not, ◌&&◌, Ends, Ends-bind, Option-cases, Bool-cases, inl, inr,
  nat_key, ◌==◌, Halt, missing_task, is_empty, retain,
}
use tiny_media_server.Prelude.Map.{Map, get, All-get, All-insert, All-remove}
use tiny_media_server.Tasks.Session.{expect}
use tiny_media_server.Tasks.Session.Laws.{expect-Ends}
use tiny_media_server.Tasks.Roles.{Role, consumer}
use tiny_media_server.Worker.State.{Env, BusChannelContainer, TaskContainer, Worker}
use tiny_media_server.Worker.Ended.{
  leave_channel, leave_channels, forget, end_tasks, pop_ended_tasks,
}
use tiny_media_server.Worker.Invariant.{EnvLaws, IsKind, ChannelFits, ChannelsFit, TaskFits, Fits}

abbrev pub EndedPanic : Halt → Type 0
EndedPanic missing_task = Unit
EndedPanic _ = ⊥

module _ (role : ℕ → Role) (seed : ℕ) where
  leave_channel-ChannelsFit :
      (task_id track_id : ℕ) (channels : Map ℕ BusChannelContainer)
      → ChannelsFit role seed channels
      → ChannelsFit role seed (leave_channel task_id track_id channels)
  unfolding leave_channel
  leave_channel-ChannelsFit task_id track_id channels h =
      elim (Option-cases (get track_id channels)) [
        | inl missing ↦ rw (missing, leave_channel) h
        | inr (c, found) ↦
            let here = All-get (ChannelFits role seed) track_id channels c h found in
            let kept = retain (λ i. not (i == task_id)) c.consumers in
            elim (Bool-cases (is_empty kept && is_empty c.sources)) [
              | inl unused ↦
                  rw (found, unused, leave_channel)
                    (All-remove (ChannelFits role seed) track_id channels h)
              | inr used ↦
                  rw (found, used, leave_channel)
                    (All-insert (ChannelFits role seed) track_id (record c { consumers = kept })
                      channels (here.0, All-retain (IsKind role seed consumer) _ c.consumers here.1)
                      h)
            ]
      ]

  pub leave_channels-ChannelsFit :
      (task_id : ℕ) (tracks : List ℕ) (channels : Map ℕ BusChannelContainer)
      → ChannelsFit role seed channels
      → ChannelsFit role seed (leave_channels task_id tracks channels)
  unfolding leave_channels
  leave_channels-ChannelsFit task_id [] channels h = h
  leave_channels-ChannelsFit task_id (track_id ∷ tracks) channels h =
      leave_channels-ChannelsFit task_id tracks (leave_channel task_id track_id channels)
        (leave_channel-ChannelsFit task_id track_id channels h)

module _ (E : Env) (laws : EnvLaws E) (role : ℕ → Role) where
  pub forget-Fits :
      (task_id : ℕ) (c : TaskContainer E) (w : Worker E)
      → Fits E laws role w
      → Fits E laws role (forget E task_id c w)
  unfolding forget
  forget-Fits task_id c w h = record {
    tasks_fit = All-remove (TaskFits E laws role w.task_id_seed) task_id w.tasks h.tasks_fit;
    channels_fit = leave_channels-ChannelsFit role w.task_id_seed task_id c.pub_channels _ (
        leave_channels-ChannelsFit role w.task_id_seed task_id c.sub_channels w.bus_channels
          h.channels_fit);
    holds = h.holds;
  }

  end_tasks-Ends :
      (ids : List ℕ) (w : Worker E)
      → Fits E laws role w
      → Ends (Fits E laws role) EndedPanic (end_tasks E ids w)
  unfolding end_tasks
  end_tasks-Ends [] w h = h
  end_tasks-Ends (task_id ∷ ids) w h =
      Ends-bind (λ _. Unit) (Fits E laws role) EndedPanic
        (expect missing_task (get task_id w.tasks)) _
        (expect-Ends missing_task EndedPanic (get task_id w.tasks) tt)
        λ c _ _. end_tasks-Ends ids (forget E task_id c w) (forget-Fits task_id c w h)

  pub pop_ended_tasks-Ends :
      (w : Worker E) → Fits E laws role w → Ends (Fits E laws role) EndedPanic (pop_ended_tasks E w)
  unfolding pop_ended_tasks
  pop_ended_tasks-Ends w h =
      end_tasks-Ends w.ended_tasks _
        (record { tasks_fit = h.tasks_fit; channels_fit = h.channels_fit; holds = h.holds })
