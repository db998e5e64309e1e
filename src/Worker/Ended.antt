-- ===== src/Worker/Ended.antt =====
-- `pop_ended_tasks`: the tasks that said they ended are removed.
pub mod Removal
pub mod Channels
use tiny_media_server.Prelude.{
  ℕ, List, [], ◌∷◌, Bool, not, ◌&&◌, Option, none, some, Outcome, ok, missing_task, ◌>>=◌, nat_key,
  string_key, ◌==◌, if◌then◌else◌, is_empty, retain,
}
use tiny_media_server.Prelude.SocketAddr.{SocketAddr, addr_key}
use tiny_media_server.Prelude.Map.{Map, get, insert, remove}
use tiny_media_server.Tasks.Session.{expect}
use tiny_media_server.Worker.State.{Env, BusChannelContainer, TaskContainer, Shared, Worker}

-- The body of both loops over channels: the source takes the id off the consumers in both.
unfoldable pub leave_channel : ℕ → ℕ → Map ℕ BusChannelContainer → Map ℕ BusChannelContainer
leave_channel task_id track_id channels = elim (get track_id channels) [
  | none ↦ channels
  | some channel ↦
      let left = record channel {
        consumers = retain (λ c. not (c == task_id)) channel.consumers;
      } in
      if is_empty left.consumers && is_empty left.sources
      then remove track_id channels
      else insert track_id left channels
]

unfoldable pub leave_channels : ℕ → List ℕ → Map ℕ BusChannelContainer → Map ℕ BusChannelContainer
unfolding leave_channel
leave_channels task_id [] channels = channels
leave_channels task_id (track_id ∷ tracks) channels =
    leave_channels task_id tracks (leave_channel task_id track_id channels)

unfoldable pub forget_remotes : List SocketAddr → Map SocketAddr ℕ → Map SocketAddr ℕ
forget_remotes [] remotes = remotes
forget_remotes (a ∷ as_) remotes = forget_remotes as_ (remove a remotes)

module _ (E : Env) where
  -- What follows `tasks.remove(&task_id).expect(..)` in the loop.
  unfoldable pub forget : ℕ → TaskContainer E → Worker E → Worker E
  unfolding leave_channels forget_remotes
  forget task_id c w = record w {
    tasks = remove task_id w.tasks;
    task_remotes = forget_remotes c.remotes w.task_remotes;
    task_ufrags = remove (E.task.ufrag c.task) w.task_ufrags;
    shared = record w.shared {
      bus_channels =
          leave_channels task_id c.pub_channels
            (leave_channels task_id c.sub_channels w.bus_channels);
    };
  }

  unfoldable pub end_tasks : List ℕ → Worker E → Outcome (Worker E)
  unfolding forget
  end_tasks [] w = ok w
  end_tasks (task_id ∷ ids) w = do
    c ← expect missing_task (get task_id w.tasks)
    end_tasks ids (forget task_id c w)

  -- `drain(..)` leaves the list empty.
  unfoldable pub pop_ended_tasks : Worker E → Outcome (Worker E)
  unfolding end_tasks
  pop_ended_tasks w =
      end_tasks w.ended_tasks (record w { shared = record w.shared { ended_tasks = [] } })
