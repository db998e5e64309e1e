-- ===== src/Worker/Invariant.antt =====
-- What holds of a worker between two calls: the ids in the channels are those of tasks that play
-- the role which the channel gives them, and no id is as large as the seed.
pub mod PopTask
pub mod Inbox
pub mod Http
pub mod Ended
pub mod Udp
pub mod Cycle
use tiny_media_server.Prelude.{
  ℕ, ◌<◌, ◌≡◌, List, All, Halt, Ends, full_bus, full_channel, unparsed_udp, no_video_stream,
  no_candidate, unparsed_offer, refused_offer, unparsed_stun, missing_task, disconnected_channel,
  datagram_too_long, ring_full, no_buffer_id, unparsed_packet, refused_submit, none,
}
use tiny_media_server.Prelude.Map.{Map}
use tiny_media_server.Prelude.SocketAddr.{SocketAddr}
use tiny_media_server.Io.{HttpRequest, IoAction}
use tiny_media_server.Net.{UdpLaws, SocketPanic}
use tiny_media_server.Tasks.Session.Laws.{NewPanic}
use tiny_media_server.Tasks.Roles.{Role, source, consumer, TaskLaws, InputPanic}
use tiny_media_server.Worker.State.{
  Env, BusChannelContainer, TaskContainer, Shared, Worker, BusEvent,
}

-- What is relied on of the parts that the worker is built on.
pub record EnvLaws (E : Env) : Type 1 where
  pub tasks : TaskLaws E.media E.task
  pub udp : UdpLaws E.udp
  pub new_whip-Ends :
      (cert : E.DtlsCert) (req : HttpRequest) (addrs : List SocketAddr) (entropy : ℕ)
      → Ends (tasks.Plays source) NewPanic (E.new_whip cert req addrs entropy)
  pub new_whep-Ends :
      (cert : E.DtlsCert) (req : HttpRequest) (addrs : List SocketAddr) (entropy : ℕ)
      → Ends (tasks.Plays consumer) NewPanic (E.new_whep cert req addrs entropy)

-- Some bus has no room for some event, and some channel none for some action.
abbrev pub Full : Env → Type 0
Full E = (e : BusEvent E.media) × (b : E.Bus) × (E.broadcast e b ≡ none)

abbrev pub FullChannel : Env → Type 0
FullChannel E = (a : IoAction) × (s : E.ExtSender) × (E.send a s ≡ none)

-- What a cycle may halt at: to wait for room on the bus or in the channel, if these are ever
-- without, or a panic. An event
-- that a task, or the worker, should not receive is not among the panics.
abbrev pub CycleHalt : Env → Halt → Type 0
CycleHalt E full_bus = Full E
CycleHalt E full_channel = FullChannel E
CycleHalt E unparsed_udp = Unit
CycleHalt E no_video_stream = Unit
CycleHalt E no_candidate = Unit
CycleHalt E unparsed_offer = Unit
CycleHalt E refused_offer = Unit
CycleHalt E unparsed_stun = Unit
CycleHalt E missing_task = Unit
CycleHalt E disconnected_channel = Unit
CycleHalt E datagram_too_long = Unit
CycleHalt E ring_full = Unit
CycleHalt E no_buffer_id = Unit
CycleHalt E unparsed_packet = Unit
CycleHalt E refused_submit = Unit
CycleHalt E _ = ⊥

pub InputPanic-CycleHalt : (E : Env) (p : Halt) → InputPanic p → CycleHalt E p
InputPanic-CycleHalt E unparsed_udp h = tt
InputPanic-CycleHalt E no_video_stream h = tt
InputPanic-CycleHalt E _ h = absurd h

pub SocketPanic-CycleHalt : (E : Env) (p : Halt) → SocketPanic p → CycleHalt E p
SocketPanic-CycleHalt E datagram_too_long h = tt
SocketPanic-CycleHalt E ring_full h = tt
SocketPanic-CycleHalt E no_buffer_id h = tt
SocketPanic-CycleHalt E unparsed_packet h = tt
SocketPanic-CycleHalt E refused_submit h = tt
SocketPanic-CycleHalt E _ h = absurd h

-- What carrying out the outputs of a task may halt at.
abbrev pub PopHalt : Env → Halt → Type 0
PopHalt E full_bus = Full E
PopHalt E datagram_too_long = Unit
PopHalt E ring_full = Unit
PopHalt E no_buffer_id = Unit
PopHalt E unparsed_packet = Unit
PopHalt E refused_submit = Unit
PopHalt E _ = ⊥

pub SocketPanic-PopHalt : (E : Env) (p : Halt) → SocketPanic p → PopHalt E p
SocketPanic-PopHalt E datagram_too_long h = tt
SocketPanic-PopHalt E ring_full h = tt
SocketPanic-PopHalt E no_buffer_id h = tt
SocketPanic-PopHalt E unparsed_packet h = tt
SocketPanic-PopHalt E refused_submit h = tt
SocketPanic-PopHalt E _ h = absurd h

pub PopHalt-CycleHalt : (E : Env) (p : Halt) → PopHalt E p → CycleHalt E p
PopHalt-CycleHalt E full_bus h = h
PopHalt-CycleHalt E datagram_too_long h = tt
PopHalt-CycleHalt E ring_full h = tt
PopHalt-CycleHalt E no_buffer_id h = tt
PopHalt-CycleHalt E unparsed_packet h = tt
PopHalt-CycleHalt E refused_submit h = tt
PopHalt-CycleHalt E _ h = absurd h

pub NewPanic-CycleHalt : (E : Env) (p : Halt) → NewPanic p → CycleHalt E p
NewPanic-CycleHalt E no_candidate h = tt
NewPanic-CycleHalt E unparsed_offer h = tt
NewPanic-CycleHalt E refused_offer h = tt
NewPanic-CycleHalt E _ h = absurd h

-- The id is below the seed, and its task plays the role `k`.
abbrev pub IsKind : (ℕ → Role) → ℕ → Role → ℕ → Type 0
IsKind role seed k i = (role i ≡ k) × (i < seed)

abbrev pub ChannelFits : (ℕ → Role) → ℕ → ℕ × BusChannelContainer → Type 0
ChannelFits role seed (track_id, channel) =
    All (IsKind role seed source) channel.sources
    × All (IsKind role seed consumer) channel.consumers

abbrev pub ChannelsFit : (ℕ → Role) → ℕ → Map ℕ BusChannelContainer → Type 0
ChannelsFit role seed = All (ChannelFits role seed)

module _ (E : Env) (laws : EnvLaws E) where
  abbrev pub TaskFits : (ℕ → Role) → ℕ → ℕ × TaskContainer E → Type 0
  TaskFits role seed (task_id, c) = laws.tasks.Plays (role task_id) c.task × (task_id < seed)

  abbrev pub TasksFit : (ℕ → Role) → ℕ → Map ℕ (TaskContainer E) → Type 0
  TasksFit role seed = All (TaskFits role seed)

  -- `role` is no part of the state: some assignment of roles to ids explains it.
  pub record Fits (role : ℕ → Role) (w : Worker E) : Type 0 where
    pub tasks_fit : TasksFit role w.task_id_seed w.tasks
    pub channels_fit : ChannelsFit role w.task_id_seed w.bus_channels
    pub holds : laws.udp.Holds w.udp_socket

  pub record IsRouted (w : Worker E) : Type 0 where
    pub role : ℕ → Role
    pub fits : Fits role w
