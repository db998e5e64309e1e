-- ===== src/Worker/Ended/Channels.antt =====
-- What `pop_ended_tasks` does to the channels. A viewer leaves them; a publisher does not, since
-- both loops of the source take the id off the consumers.
use tiny_media_server.Prelude.{
  ℕ, ◌≡◌, ◌∙◌, refl, ◌||◌, List, [], ◌∷◌, none, some, ok, missing_task, >>=-eq-ok, Option-cases,
  inl, inr, nat_key, ◌==◌, ==_iff, if◌then◌else◌, true, false, not, is_empty, retain, arith,
}
use tiny_media_server.Prelude.Map.{Map, get, get-remove, get-insert}
use tiny_media_server.Tasks.Session.{expect}
use tiny_media_server.Worker.Ended.Removal.{contains}
use tiny_media_server.Worker.State.{Env, BusChannelContainer, TaskContainer, Worker}
use tiny_media_server.Worker.Ended.{
  leave_channel, leave_channels, forget, end_tasks, pop_ended_tasks,
}

-- The sources of a track; none if it has no channel.
abbrev pub sources_of : ℕ → Map ℕ BusChannelContainer → List ℕ
sources_of t channels = elim (get t channels) [ none ↦ [] | some c ↦ c.sources ]

abbrev pub consumers_of : ℕ → Map ℕ BusChannelContainer → List ℕ
consumers_of t channels = elim (get t channels) [ none ↦ [] | some c ↦ c.consumers ]

abbrev pub without : ℕ → List ℕ → List ℕ
without task_id = retain (λ c. not (c == task_id))

is_empty→nil : (xs : List ℕ) → is_empty xs ≡ true → xs ≡ []
is_empty→nil [] h = refl
is_empty→nil (x ∷ xs) h = cc

module _ (task_id track_id t : ℕ) (channels : Map ℕ BusChannelContainer) where
  sources_of-leave_channel :
      sources_of t (leave_channel task_id track_id channels) ≡ sources_of t channels
  unfolding leave_channel
  sources_of-leave_channel = elim (Option-cases (get track_id channels)) [
    | inl e ↦ rw (e, leave_channel)
    | inr (c, e) ↦
        let left : BusChannelContainer = record c { consumers = without task_id c.consumers } in
        rw (e, leave_channel)
          (ground (
            arith,
            get-remove track_id t channels,
            get-insert track_id t left channels,
            is_empty→nil c.sources,
            ==_iff track_id t,
          ))
  ]

  consumers_of-leave_channel : consumers_of t (leave_channel task_id track_id channels) ≡ (
      if track_id == t then without task_id (consumers_of t channels) else consumers_of t channels)
  unfolding leave_channel retain
  consumers_of-leave_channel = elim (Option-cases (get track_id channels)) [
    | inl e ↦ rw (e, leave_channel) (ground (arith, ==_iff track_id t))
    | inr (c, e) ↦
        let kept = without task_id c.consumers in
        let left : BusChannelContainer = record c { consumers = kept } in
        rw (e, leave_channel)
          (ground (
            arith,
            get-remove track_id t channels,
            get-insert track_id t left channels,
            is_empty→nil kept,
            ==_iff track_id t,
          ))
  ]

without_twice : (i : ℕ) (xs : List ℕ) → without i (without i xs) ≡ without i xs
unfolding retain
without_twice i [] = refl
without_twice i (x ∷ xs) = ground (arith, without_twice i xs)

-- No entry is the id.
without_gone : (i : ℕ) (xs : List ℕ) → contains i (without i xs) ≡ false
unfolding retain
without_gone i [] = refl
without_gone i (x ∷ xs) = ground (arith, without_gone i xs)

module _ (task_id t : ℕ) where
  sources_of-leave_channels :
      (tracks : List ℕ) (channels : Map ℕ BusChannelContainer)
      → sources_of t (leave_channels task_id tracks channels) ≡ sources_of t channels
  unfolding leave_channels
  sources_of-leave_channels [] channels = refl
  sources_of-leave_channels (track_id ∷ tracks) channels =
      sources_of-leave_channels tracks (leave_channel task_id track_id channels)
      ∙ sources_of-leave_channel task_id track_id t channels

  consumers_of-leave_channels :
      (tracks : List ℕ) (channels : Map ℕ BusChannelContainer)
      → consumers_of t (leave_channels task_id tracks channels) ≡ (
          if contains t tracks
          then without task_id (consumers_of t channels)
          else consumers_of t channels)
  unfolding leave_channels
  consumers_of-leave_channels [] channels = refl
  consumers_of-leave_channels (track_id ∷ tracks) channels =
      rw (consumers_of-leave_channels tracks (leave_channel task_id track_id channels)) (
        rw (consumers_of-leave_channel task_id track_id t channels)
          (ground (arith, without_twice task_id (consumers_of t channels))))

module _ (E : Env) where
  -- Removing a task takes its id off the consumers of exactly the tracks that it had subscribed to
  -- or published.
  pub forget_consumers :
      (task_id : ℕ) (c : TaskContainer E) (w : Worker E) (t : ℕ)
      → consumers_of t (forget E task_id c w).bus_channels ≡ (
          if contains t c.sub_channels || contains t c.pub_channels
          then without task_id (consumers_of t w.bus_channels)
          else consumers_of t w.bus_channels)
  unfolding forget
  forget_consumers task_id c w t =
      rw
        (consumers_of-leave_channels task_id t c.pub_channels
          (leave_channels task_id c.sub_channels w.bus_channels))
        (rw (consumers_of-leave_channels task_id t c.sub_channels w.bus_channels)
          (ground (arith, without_twice task_id (consumers_of t w.bus_channels))))

  sources-end_tasks :
      (ids : List ℕ) (w w' : Worker E) (t : ℕ)
      → end_tasks E ids w ≡ ok w'
      → sources_of t w'.bus_channels ≡ sources_of t w.bus_channels
  unfolding end_tasks forget
  sources-end_tasks [] w w' t e = ground arith
  sources-end_tasks (task_id ∷ ids) w w' t e =
      let (c, found, rest) =
        >>=-eq-ok (expect missing_task (get task_id w.tasks))
          (λ c. end_tasks E ids (forget E task_id c w)) e in
      sources-end_tasks ids (forget E task_id c w) w' t rest
      ∙ sources_of-leave_channels task_id t c.pub_channels
          (leave_channels task_id c.sub_channels w.bus_channels)
      ∙ sources_of-leave_channels task_id t c.sub_channels w.bus_channels

  -- If pop_ended_tasks returns, the sources of every track are what they were, whichever
  -- publishers ended.
  pub sources-pop_ended_tasks :
      (w w' : Worker E) (t : ℕ)
      → pop_ended_tasks E w ≡ ok w'
      → sources_of t w'.bus_channels ≡ sources_of t w.bus_channels
  unfolding pop_ended_tasks
  sources-pop_ended_tasks w w' t e =
      sources-end_tasks w.ended_tasks (record w { shared = record w.shared { ended_tasks = [] } })
        w' t e
