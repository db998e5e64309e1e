-- ===== src/Tasks/Str0m.antt =====
-- The types of str0m (a crate that is not part of the repository) that pass through the program.
-- The program looks into an RTP header by four projections and copies the rest.
use tiny_media_server.Prelude.{ℕ, Bool, List}
use tiny_media_server.Prelude.SocketAddr.{SocketAddr}

pub record Media : Type 1 where
  pub Mid : Type 0
  pub KeyframeRequestKind : Type 0
  pub SeqNo : Type 0
  pub MediaTime : Type 0
  pub ExtVals : Type 0
  pub RtpHeader : Type 0
  pub payload_type : RtpHeader → ℕ
  pub rtp_timestamp : RtpHeader → ℕ
  pub marker : RtpHeader → Bool
  pub ext_vals : RtpHeader → ExtVals

pub data MediaKind : Type 0 where
  audio : MediaKind
  video : MediaKind

-- The program tells `Disconnected` from all other states.
pub data IceConnectionState : Type 0 where
  disconnected : IceConnectionState
  other_state : IceConnectionState

module _ (m : Media) where
  open m use {Mid, KeyframeRequestKind, SeqNo, MediaTime, RtpHeader}

  pub record RtpPacket : Type 0 where
    pub seq_no : SeqNo
    pub time : MediaTime
    pub header : RtpHeader
    pub payload : List ℕ
    pub timestamp : ℕ

  -- str0m's `Event`, as far as the tasks tell its cases apart.
  pub data Event : Type 0 where
    connected : Event
    media_added : Mid → MediaKind → Event
    ice_connection_state_change : IceConnectionState → Event
    keyframe_request : KeyframeRequestKind → Event
    rtp_packet : RtpPacket → Event
    other_event : Event

  -- str0m's `Output`.
  pub data Output : Type 0 where
    timeout : ℕ → Output
    -- source, destination, contents
    transmit : SocketAddr → SocketAddr → List ℕ → Output
    event : Event → Output
