-- ===== src/Tasks.antt =====
-- src/tasks/mod.rs: what a task is told, what it says, and the trait `WebrtcTask`.
use tiny_media_server.Prelude.{ℕ, String, List, Bool, Option, Outcome}
use tiny_media_server.Io.{IoEvent, IoAction}
pub mod Str0m
pub mod Rtc
pub mod Session
pub mod Whip
pub mod Whep
pub mod Roles
pub mod Answers
pub mod Compose
pub mod Pairing
pub mod Clock
use Str0m.{Media, MediaKind, RtpPacket}

module _ (m : Media) where
  open m use {KeyframeRequestKind, SeqNo, MediaTime, RtpHeader}

  pub record TrackMedia : Type 0 where
    pub track_id : ℕ
    pub seq_no : SeqNo
    pub time : MediaTime
    pub header : RtpHeader
    pub payload : List ℕ
    pub timestamp : ℕ

  unfoldable pub from_raw : ℕ → RtpPacket m → TrackMedia
  from_raw track_id rtp = record {
    track_id = track_id;
    seq_no = rtp.seq_no;
    time = rtp.time;
    header = rtp.header;
    payload = rtp.payload;
    timestamp = rtp.timestamp;
  }

  pub data WebrtcTaskInput : Type 0 where
    io : IoEvent → WebrtcTaskInput
    track_media : TrackMedia → WebrtcTaskInput
    request_keyframe_track : ℕ → KeyframeRequestKind → WebrtcTaskInput

  pub data WebrtcTaskOutput : Type 0 where
    io : IoAction → WebrtcTaskOutput
    track_media : TrackMedia → WebrtcTaskOutput
    task_ended : WebrtcTaskOutput
    publish_track : ℕ → WebrtcTaskOutput
    subscribe_track : ℕ → WebrtcTaskOutput
    request_keyframe_track : ℕ → KeyframeRequestKind → WebrtcTaskOutput

  -- The trait. `pending` is no part of it: it bounds how often `pop_action` answers before it says
  -- `None`, and the model's loops take their fuel from it.
  pub record WebrtcTask : Type 1 where
    pub Task : Type 0
    pub ufrag : Task → String
    pub tick : ℕ → Task → Bool × Task
    pub input : ℕ → WebrtcTaskInput → Task → Outcome (Bool × Task)
    pub pop_action : ℕ → Task → Option WebrtcTaskOutput × Task
    pub pending : Task → ℕ

-- track_id_builder: `DefaultHasher` (a parameter) fed with the channel and the kind.
unfoldable pub track_id_builder : (String → MediaKind → ℕ) → String → MediaKind → ℕ
track_id_builder hash channel kind = hash channel kind
