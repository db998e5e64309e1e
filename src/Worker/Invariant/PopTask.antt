-- ===== src/Worker/Invariant/PopTask.antt =====
-- `pop_task` and `pop_tasks` come to an end and keep the invariant.
use tiny_media_server.Prelude.{
  ℕ, zero, suc, ◌<◌, ◌≤◌, ◌≡◌, ◌∙◌, ap, refl, [], ◌∷◌, All-append, Ends, Ends-bind, Ends-weaken,
  Option-cases, inl, inr, arith, nat_key, full_bus, ok, ◌>>=◌,
}
use tiny_media_server.Prelude.Map.{Map, All-modify, All-or_insert}
use tiny_media_server.Io.{http_response, udp_socket_send}
use tiny_media_server.Net.{SocketPanic}
use tiny_media_server.Tasks.{WebrtcTaskOutput}
use tiny_media_server.Tasks.Roles.{Role, source, consumer, Says}
use tiny_media_server.Tasks.Session.{expect}
use tiny_media_server.Tasks.Session.Laws.{expect-Ends-none}
use tiny_media_server.Worker.State.{
  Env, BusEvent, track_media, track_keyframe_request, BusChannelContainer, TaskContainer, Shared,
}
use tiny_media_server.Worker.PopTask.{
  empty_channel, add_source, add_consumer, handle_action, pop_loop, pop_task, pop_all,
}
use tiny_media_server.Worker.Invariant.{
  PopHalt, SocketPanic-PopHalt, EnvLaws, IsKind, ChannelFits, ChannelsFit, TasksFit,
}

module _ (role : ℕ → Role) (seed : ℕ) where
  add_source-ChannelsFit :
      (track_id task_id : ℕ) (channels : Map ℕ BusChannelContainer)
      → IsKind role seed source task_id
      → ChannelsFit role seed channels
      → ChannelsFit role seed (add_source track_id task_id channels)
  unfolding add_source
  add_source-ChannelsFit track_id task_id channels k h =
      All-modify (ChannelFits role seed) track_id _ _
        (λ j c e p. (All-append (IsKind role seed source) c.sources _ p.0 (k, tt), p.1))
        (All-or_insert (ChannelFits role seed) track_id empty_channel channels (tt, tt) h)

  add_consumer-ChannelsFit :
      (track_id task_id : ℕ) (channels : Map ℕ BusChannelContainer)
      → IsKind role seed consumer task_id
      → ChannelsFit role seed channels
      → ChannelsFit role seed (add_consumer track_id task_id channels)
  unfolding add_consumer
  add_consumer-ChannelsFit track_id task_id channels k h =
      All-modify (ChannelFits role seed) track_id _ _
        (λ j c e p. (p.0, All-append (IsKind role seed consumer) c.consumers _ p.1 (k, tt)))
        (All-or_insert (ChannelFits role seed) track_id empty_channel channels (tt, tt) h)

-- After an action: the task is untouched, the channels fit, and no datagram came in.
pub record Handled (E : Env) (laws : EnvLaws E) (role : ℕ → Role) (seed : ℕ) (c : TaskContainer E)
    (s : Shared E) (r : TaskContainer E × Shared E) : Type 0 where
  pub same_task : r.0.task ≡ c.task
  pub same_remotes : r.0.remotes ≡ c.remotes
  pub channels_fit : ChannelsFit role seed r.1.bus_channels
  pub holds : laws.udp.Holds r.1.udp_socket
  pub no_more : E.udp.ready r.1.udp_socket ≤ E.udp.ready s.udp_socket

module _ (E : Env) (laws : EnvLaws E) (role : ℕ → Role) (seed : ℕ) where
  broadcast-Ends :
      (e : BusEvent E.media) (c : TaskContainer E) (s : Shared E)
      → ChannelsFit role seed s.bus_channels
      → laws.udp.Holds s.udp_socket
      → Ends (Handled E laws role seed c s) (PopHalt E) (
          expect full_bus (E.broadcast e s.bus_send) >>= λ bus. ok (c, record s { bus_send = bus }))
  broadcast-Ends e c s h up =
      Ends-bind (λ _. Unit) (Handled E laws role seed c s) (PopHalt E)
        (expect full_bus (E.broadcast e s.bus_send)) _
        (expect-Ends-none full_bus (PopHalt E) (E.broadcast e s.bus_send)
          λ full. (e, s.bus_send, full))
        λ bus _ _. record {
          same_task = refl;
          same_remotes = refl;
          channels_fit = h;
          holds = up;
          no_more = omega arith;
        }

  handle_action-Ends :
      (k : Role) (task_id : ℕ) (o : WebrtcTaskOutput E.media) (c : TaskContainer E) (s : Shared E)
      → Says E.media k o
      → IsKind role seed k task_id
      → ChannelsFit role seed s.bus_channels
      → laws.udp.Holds s.udp_socket
      → Ends (Handled E laws role seed c s) (PopHalt E) (handle_action E task_id o c s)
  unfolding handle_action
  handle_action-Ends k task_id (WebrtcTaskOutput.io (udp_socket_send from to buf)) c s said kind h
        up =
      Ends-bind _ (Handled E laws role seed c s) (PopHalt E) (E.udp.add_send_to buf to s.udp_socket)
        _
        (Ends-weaken _ _ SocketPanic (PopHalt E) (E.udp.add_send_to buf to s.udp_socket)
          (laws.udp.add_send-Ends buf to s.udp_socket up) (λ x q. q) (SocketPanic-PopHalt E))
        λ (sent, socket) _ (up', le). record {
          same_task = refl;
          same_remotes = refl;
          channels_fit = h;
          holds = up';
          no_more = le;
        }
  handle_action-Ends source task_id (WebrtcTaskOutput.publish_track t) c s said kind h up = record {
    same_task = refl;
    same_remotes = refl;
    channels_fit = add_source-ChannelsFit role seed t task_id s.bus_channels kind h;
    holds = up;
    no_more = omega arith;
  }
  handle_action-Ends consumer task_id (WebrtcTaskOutput.publish_track t) c s said kind h up =
      absurd said
  handle_action-Ends consumer task_id (WebrtcTaskOutput.subscribe_track t) c s said kind h up =
      record {
        same_task = refl;
        same_remotes = refl;
        channels_fit = add_consumer-ChannelsFit role seed t task_id s.bus_channels kind h;
        holds = up;
        no_more = omega arith;
      }
  handle_action-Ends source task_id (WebrtcTaskOutput.subscribe_track t) c s said kind h up =
      absurd said
  handle_action-Ends k task_id (WebrtcTaskOutput.io (http_response res)) c s said kind h up =
      record {
        same_task = refl;
        same_remotes = refl;
        channels_fit = h;
        holds = up;
        no_more = omega arith;
      }
  handle_action-Ends k task_id (WebrtcTaskOutput.track_media media) c s said kind h up =
      broadcast-Ends (track_media media) c s h up
  handle_action-Ends k task_id (WebrtcTaskOutput.request_keyframe_track t q) c s said kind h up =
      broadcast-Ends (track_keyframe_request t q) c s h up
  handle_action-Ends k task_id WebrtcTaskOutput.task_ended c s said kind h up = record {
    same_task = refl;
    same_remotes = refl;
    channels_fit = h;
    holds = up;
    no_more = omega arith;
  }

  -- After a whole `pop_task`.
  pub record Popped (task_id : ℕ) (c : TaskContainer E) (s : Shared E)
      (r : TaskContainer E × Shared E) : Type 0 where
    pub plays : laws.tasks.Plays (role task_id) r.0.task
    pub same_ufrag : E.task.ufrag r.0.task ≡ E.task.ufrag c.task
    pub same_remotes : r.0.remotes ≡ c.remotes
    pub channels_fit : ChannelsFit role seed r.1.bus_channels
    pub holds : laws.udp.Holds r.1.udp_socket
    pub no_more : E.udp.ready r.1.udp_socket ≤ E.udp.ready s.udp_socket

  pop_loop-Ends :
      (fuel now task_id : ℕ) (c : TaskContainer E) (s : Shared E)
      → E.task.pending c.task < fuel
      → task_id < seed
      → laws.tasks.Plays (role task_id) c.task
      → ChannelsFit role seed s.bus_channels
      → laws.udp.Holds s.udp_socket
      → Ends (Popped task_id c s) (PopHalt E) (pop_loop E fuel now task_id c s)
  unfolding pop_loop
  pop_loop-Ends zero now task_id c s room fresh plays h up = absurd (omega arith)
  pop_loop-Ends (suc fuel) now task_id c s room fresh plays h up =
      elim (Option-cases (E.task.pop_action now c.task).0) [
        | inl e ↦
            rw (e, pop_loop, Ends)
              (record {
                plays = laws.tasks.pop-Plays (role task_id) now c.task plays;
                same_ufrag = laws.tasks.pop-ufrag now c.task;
                same_remotes = refl;
                channels_fit = h;
                holds = up;
                no_more = omega arith;
              })
        | inr (action, e) ↦
            let says : Says E.media (role task_id) action =
              rw e at (laws.tasks.pop-Says (role task_id) now c.task plays) in
            let falls : E.task.pending (E.task.pop_action now c.task).1 < E.task.pending c.task =
              rw e at (laws.tasks.pop-pending now c.task) in
            let next : TaskContainer E = record c { task = (E.task.pop_action now c.task).1 } in
            rw (e, pop_loop, Ends)
              (Ends-bind (Handled E laws role seed next s) (Popped task_id c s) (PopHalt E) _ _
                (handle_action-Ends (role task_id) task_id action next s says (refl, fresh) h up)
                λ (c', s') _ d.
                  Ends-weaken (Popped task_id c' s') (Popped task_id c s) (PopHalt E) (PopHalt E) _
                    (pop_loop-Ends fuel now task_id c' s' (rw d.same_task (omega arith)) fresh
                      (rw d.same_task (laws.tasks.pop-Plays (role task_id) now c.task plays))
                      d.channels_fit d.holds)
                    (λ x q. record {
                      plays = q.plays;
                      same_ufrag =
                          q.same_ufrag
                          ∙ ap E.task.ufrag d.same_task
                          ∙ laws.tasks.pop-ufrag now c.task;
                      same_remotes = q.same_remotes ∙ d.same_remotes;
                      channels_fit = q.channels_fit;
                      holds = q.holds;
                      no_more = omega arith;
                    })
                    (λ p q. q))
      ]

  -- With the fuel that it gives itself, `pop_task` ends.
  pub pop_task-Ends :
      (now task_id : ℕ) (c : TaskContainer E) (s : Shared E)
      → task_id < seed
      → laws.tasks.Plays (role task_id) c.task
      → ChannelsFit role seed s.bus_channels
      → laws.udp.Holds s.udp_socket
      → Ends (Popped task_id c s) (PopHalt E) (pop_task E now task_id c s)
  unfolding pop_task
  pop_task-Ends now task_id c s fresh plays h up =
      pop_loop-Ends _ now task_id c s (omega arith) fresh plays h up

  -- After `pop_tasks`: what one `pop_task` leaves, for all of them.
  pub record AllPopped (tasks : Map ℕ (TaskContainer E)) (s : Shared E)
      (r : Map ℕ (TaskContainer E) × Shared E) : Type 0 where
    pub tasks_fit : TasksFit E laws role seed r.0
    pub channels_fit : ChannelsFit role seed r.1.bus_channels
    pub holds : laws.udp.Holds r.1.udp_socket

  pub pop_all-Ends :
      (now : ℕ) (tasks : Map ℕ (TaskContainer E)) (s : Shared E)
      → TasksFit E laws role seed tasks
      → ChannelsFit role seed s.bus_channels
      → laws.udp.Holds s.udp_socket
      → Ends (AllPopped tasks s) (PopHalt E) (pop_all E now tasks s)
  unfolding pop_all
  pop_all-Ends now [] s fit h up = record { tasks_fit = tt; channels_fit = h; holds = up }
  pop_all-Ends now ((task_id, c) ∷ tasks) s fit h up =
      Ends-bind (Popped task_id c s) _ (PopHalt E) (pop_task E now task_id c s) _
        (pop_task-Ends now task_id c s fit.0.1 fit.0.0 h up)
        λ (c', s') _ d.
          Ends-bind (AllPopped tasks s') _ (PopHalt E) (pop_all E now tasks s') _
            (pop_all-Ends now tasks s' fit.1 d.channels_fit d.holds)
            λ (tasks', s'') _ q. record {
              tasks_fit = ((d.plays, fit.0.1), q.tasks_fit);
              channels_fit = q.channels_fit;
              holds = q.holds;
            }
