-- ===== src/Tasks/Rtc.antt =====
-- The calls of str0m's `Rtc` that the two tasks make, as one parameter. None of them is defined
-- here: str0m is not part of the repository.
use tiny_media_server.Prelude.{ℕ, String, List, Bool, Option, some, ◌<◌, ◌≡◌, ◌≢◌}
use tiny_media_server.Prelude.SocketAddr.{SocketAddr}
use tiny_media_server.Tasks.Str0m.{Media, MediaKind, Output, timeout}

-- The arguments of `StreamTx::write_rtp`, in its order.
pub record WriteRtp (m : Media) : Type 0 where
  pub payload_type : ℕ
  pub seq_no : m.SeqNo
  pub rtp_time : ℕ
  pub wallclock : ℕ
  pub marker : Bool
  pub ext_vals : m.ExtVals
  pub nackable : Bool
  pub payload : List ℕ

pub record RtcApi (m : Media) : Type 1 where
  pub Rtc : Type 0
  pub RtcConfig : Type 0
  pub DtlsCert : Type 0
  pub Candidate : Type 0
  pub SdpOffer : Type 0
  pub Receive : Type 0
  -- Rtc::builder(): the local ICE credentials are random, and the argument is that randomness.
  pub builder : ℕ → RtcConfig
  pub set_rtp_mode : Bool → RtcConfig → RtcConfig
  pub set_ice_lite : Bool → RtcConfig → RtcConfig
  pub set_dtls_cert : DtlsCert → RtcConfig → RtcConfig
  pub local_ufrag : RtcConfig → String
  pub build : RtcConfig → Rtc
  pub enable_twcc_feedback : Rtc → Rtc
  -- Candidate::host(addr, Protocol::Udp)
  pub host : SocketAddr → Option Candidate
  pub add_local_candidate : Candidate → Rtc → Rtc
  -- SdpOffer::from_sdp_string(&String::from_utf8_lossy(body))
  pub from_sdp_string : List ℕ → Option SdpOffer
  -- sdp_api().accept_offer(offer), with the bytes of the answer's text
  pub accept_offer : SdpOffer → Rtc → Option (List ℕ × Rtc)
  -- Receive::new(Protocol::Udp, from, to, buf)
  pub new_receive : SocketAddr → SocketAddr → List ℕ → Option Receive
  -- handle_input(Input::Receive(now, receive)) and handle_input(Input::Timeout(now)); the error is
  -- only logged, so the session afterwards is all that counts.
  pub handle_receive : ℕ → Receive → Rtc → Rtc
  pub handle_timeout : ℕ → Rtc → Rtc
  -- Whether direct_api().stream_tx_by_mid(mid, None) is some stream, and a write to that stream.
  pub has_stream_tx : m.Mid → Rtc → Bool
  pub write_rtp : m.Mid → WriteRtp m → Rtc → Rtc
  -- The same of stream_rx_by_mid and request_keyframe.
  pub has_stream_rx : m.Mid → Rtc → Bool
  pub request_keyframe : m.Mid → m.KeyframeRequestKind → Rtc → Rtc
  -- `none` is an error.
  pub poll_output : Rtc → Option (Output m) × Rtc
  -- DefaultHasher over a channel and a kind
  pub hash : String → MediaKind → ℕ
  -- How many outputs `poll_output` has ready before it answers with a timeout.
  pub queued : Rtc → ℕ

-- What is relied on: a session that is polled and not fed comes to its timeout.
pub record RtcLaws {m : Media} (r : RtcApi m) : Type 0 where
  pub poll-Uses :
      (s : r.Rtc) (o : Output m)
      → (r.poll_output s).0 ≡ some o
      → ((at : ℕ) → o ≢ timeout at)
      → r.queued (r.poll_output s).1 < r.queued s
