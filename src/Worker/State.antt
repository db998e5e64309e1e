-- ===== src/Worker/State.antt =====
-- The worker's records. Task ids are `usize`; the seed is taken not to reach 2^64.
use tiny_media_server.Prelude.{ℕ, String, List, [], Bool, Option, Outcome}
use tiny_media_server.Prelude.SocketAddr.{SocketAddr}
use tiny_media_server.Prelude.Map.{Map}
use tiny_media_server.Io.{HttpRequest, IoAction}
use tiny_media_server.Net.{UdpSocketGeneric}
use tiny_media_server.Tasks.{TrackMedia, WebrtcTask}
use tiny_media_server.Tasks.Str0m.{Media}

pub data BusEvent (m : Media) : Type 0 where
  track_media : TrackMedia m → BusEvent m
  track_keyframe_request : ℕ → m.KeyframeRequestKind → BusEvent m

-- What the worker is built on: the tasks behind their trait and constructors, the socket behind
-- its trait, and the crates `crossbeam` (ext_send), `bus` (bus_send) and `faster_stun`.
pub record Env : Type 1 where
  pub media : Media
  pub task : WebrtcTask media
  pub DtlsCert : Type 0
  -- certificate, request, local addresses, randomness of the ICE credentials
  pub new_whip : DtlsCert → HttpRequest → List SocketAddr → ℕ → Outcome task.Task
  pub new_whep : DtlsCert → HttpRequest → List SocketAddr → ℕ → Outcome task.Task
  pub udp : UdpSocketGeneric
  pub ExtSender : Type 0
  -- Whether the channel took the action; a refusal is only logged.
  pub try_send : IoAction → ExtSender → Bool × ExtSender
  -- Waits while the channel is full: `none` if nobody takes from it meanwhile, and `some none` if
  -- nobody can receive any more.
  pub send : IoAction → ExtSender → Option (Option ExtSender)
  pub Bus : Type 0
  -- Waits while the bus is full for one of its readers: `none` if that reader does not read
  -- meanwhile, which a worker that broadcasts does not.
  pub broadcast : BusEvent media → Bus → Option Bus
  -- MessageReader::decode, then get::<UserName>: `none` if the bytes are no STUN message.
  pub decode : List ℕ → Option (Option String)

pub record BusChannelContainer : Type 0 where
  pub sources : List ℕ
  pub consumers : List ℕ

module _ (E : Env) where
  open E use {task, udp, ExtSender, Bus, DtlsCert}

  pub record TaskContainer : Type 0 where
    pub task : E.task.Task
    pub remotes : List SocketAddr
    pub sub_channels : List ℕ
    pub pub_channels : List ℕ

  -- From<ComposeTask> for TaskContainer
  unfoldable pub container_from : E.task.Task → TaskContainer
  container_from t = record { task = t; remotes = []; sub_channels = []; pub_channels = [] }

  -- The fields that `pop_task` gets by reference.
  pub record Shared : Type 0 where
    pub udp_socket : E.udp.Socket
    pub ext_send : ExtSender
    pub bus_send : Bus
    pub bus_channels : Map ℕ BusChannelContainer
    pub ended_tasks : List ℕ

  pub record Worker : Type 0 where
    pub task_id_seed : ℕ
    pub udp_socket_local_addr : SocketAddr
    pub shared : Shared
    pub open shared use *
    pub tasks : Map ℕ TaskContainer
    pub task_remotes : Map SocketAddr ℕ
    pub task_ufrags : Map String ℕ
    pub dtls_cert : DtlsCert

  -- `socket` is UdpSocket::new(SocketAddr::new(ip_addr, 0)), `cert` DtlsCert::new_openssl().
  unfoldable pub new : E.udp.Socket → ExtSender → Bus → DtlsCert → Worker
  new socket ext bus cert = record {
    task_id_seed = 0;
    udp_socket_local_addr = E.udp.local_addr socket;
    shared = record {
      udp_socket = socket;
      ext_send = ext;
      bus_send = bus;
      bus_channels = [];
      ended_tasks = [];
    };
    tasks = [];
    task_remotes = [];
    task_ufrags = [];
    dtls_cert = cert;
  }
