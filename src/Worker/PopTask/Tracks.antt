-- ===== src/Worker/PopTask/Tracks.antt =====
-- How `PublishTrack` and `SubscribeTrack` change who sends and who receives each track.
use tiny_media_server.Prelude.{
  ℕ, ◌≡◌, [], ◌∷◌, ◌++◌, nat_key, ◌==◌, ==_iff, if◌then◌else◌, arith, List,
}
use tiny_media_server.Prelude.Map.{Map, or_insert, get-modify, get-or_insert}
use tiny_media_server.Tasks.Roles.{Role, source, consumer}
use tiny_media_server.Worker.State.{BusChannelContainer}
use tiny_media_server.Worker.Ended.Channels.{sources_of, consumers_of}
use tiny_media_server.Worker.PopTask.{empty_channel, add_source, add_consumer}

module _ (t task_id j : ℕ) (channels : Map ℕ BusChannelContainer) where
  add_source_lem :
      (sources_of j (add_source t task_id channels)
        ≡ (if t == j then sources_of j channels ++ task_id ∷ [] else sources_of j channels))
      × (consumers_of j (add_source t task_id channels) ≡ consumers_of j channels)
  unfolding add_source
  add_source_lem = ground (
    arith,
    get-modify t j (λ (c : BusChannelContainer). record c { sources = c.sources ++ task_id ∷ [] })
        (or_insert t empty_channel channels),
    get-or_insert t j empty_channel channels,
    ==_iff t j,
  )

  add_consumer_lem :
      (consumers_of j (add_consumer t task_id channels)
        ≡ (if t == j then consumers_of j channels ++ task_id ∷ [] else consumers_of j channels))
      × (sources_of j (add_consumer t task_id channels) ≡ sources_of j channels)
  unfolding add_consumer
  add_consumer_lem = ground (
    arith,
    get-modify t j
        (λ (c : BusChannelContainer). record c { consumers = c.consumers ++ task_id ∷ [] })
        (or_insert t empty_channel channels),
    get-or_insert t j empty_channel channels,
    ==_iff t j,
  )

-- The tasks of a track that play a role, and the list that an announced track is put on.
abbrev pub players : Role → ℕ → Map ℕ BusChannelContainer → List ℕ
players source = sources_of
players consumer = consumers_of

abbrev pub announce : Role → ℕ → ℕ → Map ℕ BusChannelContainer → Map ℕ BusChannelContainer
announce source = add_source
announce consumer = add_consumer

abbrev pub other : Role → Role
other source = consumer
other consumer = source

-- Publishing a track puts the task's id behind the sources of that track, and subscribing to one
-- behind its consumers; neither changes those of another track, nor what the other of the two
-- lists.
pub announce_lem :
    (k : Role) (t task_id j : ℕ) (channels : Map ℕ BusChannelContainer)
    → (players k j (announce k t task_id channels)
        ≡ (if t == j then players k j channels ++ task_id ∷ [] else players k j channels))
      × (players (other k) j (announce k t task_id channels) ≡ players (other k) j channels)
announce_lem source t task_id j channels = add_source_lem t task_id j channels
announce_lem consumer t task_id j channels = add_consumer_lem t task_id j channels
