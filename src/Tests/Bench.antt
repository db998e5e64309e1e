-- ===== src/Tests/Bench.antt =====
-- Concrete instances of everything that the model takes as a parameter.
use tiny_media_server.Prelude.{
  ℕ, zero, suc, ◌<◌, ◌≡◌, ◌≢◌, String, List, [], ◌∷◌, ◌++◌, true, Option, none, some, Outcome, ok,
  Ends, length, arith, ltb, if◌then◌else◌,
}
use tiny_media_server.Prelude.SocketAddr.{SocketAddr}
use tiny_media_server.Io.{HttpRequest, IoAction}
use tiny_media_server.Net.{UdpSocketGeneric, UdpLaws, SocketPanic}
use tiny_media_server.Tasks.Str0m.{
  Media, MediaKind, audio, video, disconnected, connected, media_added, ice_connection_state_change,
  Output, timeout, event,
}
use tiny_media_server.Tasks.Rtc.{RtcApi, RtcLaws}
use tiny_media_server.Tasks.Roles.{Uses}
use tiny_media_server.Worker.State.{BusEvent}
use tiny_media_server.Server.{Crates}

-- An RTP header is its payload type.
abbrev pub media : Media
media = record {
  Mid = ℕ;
  KeyframeRequestKind = ℕ;
  SeqNo = ℕ;
  MediaTime = ℕ;
  ExtVals = ℕ;
  RtpHeader = ℕ;
  payload_type = λ h. h;
  rtp_timestamp = λ h. h;
  marker = λ h. true;
  ext_vals = λ h. h;
}

-- A session is the script of its outputs.
abbrev pub poll : List (Output media) → Option (Output media) × List (Output media)
poll [] = (some (timeout 50), [])
poll (o ∷ os) = (some o, os)

-- A datagram that starts with 1 disconnects its session.
abbrev pub receive : List ℕ → List (Output media)
receive [] = []
receive (zero ∷ buf) = []
receive (suc x ∷ buf) = event (ice_connection_state_change disconnected) ∷ []

abbrev pub hash : String → MediaKind → ℕ
hash channel audio = 1
hash channel video = 2

abbrev pub rtc_api : RtcApi media
rtc_api = record {
  Rtc = List (Output media);
  RtcConfig = ℕ;
  DtlsCert = Unit {0};
  Candidate = SocketAddr;
  SdpOffer = List ℕ;
  Receive = List (Output media);
  builder = λ entropy. entropy;
  set_rtp_mode = λ b c. c;
  set_ice_lite = λ b c. c;
  set_dtls_cert = λ cert c. c;
  local_ufrag = λ c. "ufrag";
  build = λ c. event connected ∷ event (media_added 7 video) ∷ [];
  enable_twcc_feedback = λ s. s;
  host = λ a. some a;
  add_local_candidate = λ a s. s;
  from_sdp_string = λ body. some body;
  accept_offer = λ offer s. some (offer, s);
  new_receive = λ from to buf. some (receive buf);
  handle_receive = λ now x s. s ++ x;
  handle_timeout = λ now s. s;
  has_stream_tx = λ mid s. true;
  write_rtp = λ mid x s. s;
  has_stream_rx = λ mid s. true;
  request_keyframe = λ mid k s. s;
  poll_output = poll;
  hash = hash;
  queued = length;
}

poll-Uses :
    (s : List (Output media)) (o : Output media)
    → (poll s).0 ≡ some o
    → ((at : ℕ) → o ≢ timeout at)
    → length (poll s).1 < length s
poll-Uses [] o e never = absurd (never 50 (ground arith))
poll-Uses (p ∷ s) o e never = omega arith

pub rtc_laws : RtcLaws rtc_api
rtc_laws = record { poll-Uses = poll-Uses }

-- A socket is what lies in its receive buffer.
abbrev pub recv :
    List (List ℕ × SocketAddr) → Outcome (Option (List ℕ × SocketAddr) × List (List ℕ × SocketAddr))
recv [] = ok (none, [])
recv (d ∷ s) = ok (some d, s)

abbrev pub udp : UdpSocketGeneric
udp = record {
  Socket = List (List ℕ × SocketAddr);
  prepare = ok;
  local_addr = λ s. record { ip = 1; port = 4000 };
  add_send_to = λ buf dest s. ok (some (length buf), s);
  commit_send_to = λ s. ok (true, s);
  recv_from = recv;
  finish_read_from = λ s. ok (true, s);
  ready = length;
}

pub recv-Ends :
    (s : List (List ℕ × SocketAddr))
    → Ends (λ x. Unit × Uses x.0 (length s) (length x.1)) SocketPanic (recv s)
recv-Ends [] = (tt, tt)
recv-Ends (d ∷ s) = (tt, omega arith)

abbrev pub udp_laws : UdpLaws udp
udp_laws = record {
  Holds = λ s. Unit;
  prepare-Ends = λ s h. tt;
  add_send-Ends = λ buf dest s h. (tt, omega arith);
  recv-Ends = λ s h. recv-Ends s;
  commit-Ends = λ s h. tt;
  finish-Ends = λ s h. tt;
}

-- Channels that keep what they are given. Bytes are STUN if there are any.
abbrev pub decode : List ℕ → Option (Option String)
decode [] = none
decode (x ∷ xs) = some (some "ufrag:peer")

abbrev pub crates : Crates media
crates = record {
  ExtSender = List IoAction;
  try_send = λ a s. (true, s ++ a ∷ []);
  send = λ a s. some (some (s ++ a ∷ []));
  Bus = List (BusEvent media);
  broadcast = λ e b. if ltb (length b) 1000 then some (b ++ e ∷ []) else none;
  decode = decode;
}

abbrev pub peer : SocketAddr
peer = record { ip = 9; port = 9 }

abbrev pub whip_request : HttpRequest
whip_request = record {
  req_id = 0;
  method = "POST";
  path = "/whip/endpoint";
  headers = ("Authorization", "room") ∷ [];
  body = 5 ∷ [];
}

abbrev pub whep_request : HttpRequest
whep_request = record whip_request { req_id = 1; path = "/whep/endpoint" }
