-- ===== src/Tasks/Whep.antt =====
-- src/tasks/whep.rs: the task of a viewer.
pub mod Laws
pub mod Answers
use tiny_media_server.Prelude.{
  ℕ, ◌+◌, String, List, [], ◌∷◌, ◌++◌, Bool, true, false, Option, none, some, Outcome, ok, halt,
  unexpected_event, unimplemented_input, unparsed_udp, unparsed_offer, refused_offer, ◌>>=◌, leb,
  ◌==◌, nat_key, if◌then◌else◌, length,
}
use tiny_media_server.Prelude.SocketAddr.{SocketAddr}
use tiny_media_server.Io.{
  HttpRequest, http_request, udp_socket_recv, http_response, udp_socket_send,
}
use tiny_media_server.Http.{get_http_auth}
use tiny_media_server.Tasks.{WebrtcTaskInput, WebrtcTaskOutput, TrackMedia, track_id_builder}
use tiny_media_server.Tasks.Str0m.{
  Media, audio, video, disconnected, other_state, Event, connected, media_added,
  ice_connection_state_change, keyframe_request, rtp_packet, other_event, Output, transmit, event,
}
use tiny_media_server.Tasks.Rtc.{RtcApi, WriteRtp}
use tiny_media_server.Tasks.Session.{expect, waits, rtc_config, add_local_candidates}

module _ (m : Media) (r : RtcApi m) where
  open m use {Mid, payload_type, rtp_timestamp, marker, ext_vals}
  open r use {
    Rtc, DtlsCert, local_ufrag, build, from_sdp_string, accept_offer, new_receive, handle_receive,
    handle_timeout, has_stream_tx, write_rtp, poll_output, hash, queued,
  }

  pub record WhepServerTask : Type 0 where
    pub channel : String
    pub ice_ufrag : String
    pub timeout : Option ℕ
    pub rtc : Rtc
    pub outputs : List (WebrtcTaskOutput m)
    pub audio_mid : Option Mid
    pub video_mid : Option Mid

  -- The answer that the client waits for is the task's first output.
  abbrev pub whep_answer : HttpRequest → List ℕ → WebrtcTaskOutput m
  whep_answer req answer = WebrtcTaskOutput.io (
      http_response (record {
        req_id = req.req_id;
        status = 200;
        headers = ("Content-Type", "application/sdp") ∷ ("Location", "/whep/endpoint/1234") ∷ [];
        body = answer;
      }))

  -- `entropy` is the randomness of the session's ICE credentials.
  unfoldable pub new : DtlsCert → HttpRequest → List SocketAddr → ℕ → Outcome WhepServerTask
  unfolding rtc_config
  new cert req local_addrs entropy = do
    let config = rtc_config m r cert entropy
    rtc ← add_local_candidates m r local_addrs (build config)
    offer ← expect unparsed_offer (from_sdp_string req.body)
    (answer, session) ← expect refused_offer (accept_offer offer rtc)
    ok (record {
      channel = get_http_auth req;
      ice_ufrag = local_ufrag config;
      timeout = none;
      rtc = session;
      outputs = whep_answer req answer ∷ [];
      audio_mid = none;
      video_mid = none;
    })

  unfoldable pub tick : ℕ → WhepServerTask → Bool × WhepServerTask
  tick now t = elim t.timeout [
    | none ↦ (false, t)
    | some timeout ↦
        if leb timeout now
        then (true, record t { rtc = handle_timeout now t.rtc; timeout = none })
        else (false, t)
  ]

  -- Payload type 111 is audio, and audio is not sent again on a NACK.
  unfoldable pub route : TrackMedia m → WhepServerTask → Option Mid × Bool
  route media t =
      if payload_type media.header == 111 then (t.audio_mid, false) else (t.video_mid, true)

  -- The arguments of `stream.write_rtp`.
  abbrev pub rtp_of : TrackMedia m → Bool → WriteRtp m
  rtp_of media nackable = record {
    payload_type = payload_type media.header;
    seq_no = media.seq_no;
    rtp_time = rtp_timestamp media.header;
    wallclock = media.timestamp;
    marker = marker media.header;
    ext_vals = ext_vals media.header;
    nackable = nackable;
    payload = media.payload;
  }

  unfoldable pub forward : Option Mid × Bool → TrackMedia m → WhepServerTask → WhepServerTask
  forward (none, nackable) media t = t
  forward (some mid, nackable) media t =
      if has_stream_tx mid t.rtc
      then record t { rtc = write_rtp mid (rtp_of media nackable) t.rtc; timeout = none }
      else t

  unfoldable pub input : ℕ → WebrtcTaskInput m → WhepServerTask → Outcome (Bool × WhepServerTask)
  unfolding forward route
  input now (WebrtcTaskInput.io (http_request req)) t = halt unimplemented_input
  input now (WebrtcTaskInput.io (udp_socket_recv from to buf)) t = do
    receive ← expect unparsed_udp (new_receive from to buf)
    ok (true, record t { rtc = handle_receive now receive t.rtc; timeout = none })
  input now (WebrtcTaskInput.track_media media) t = ok (true, forward (route media t) media t)
  input now (WebrtcTaskInput.request_keyframe_track track_id kind) t = halt unexpected_event

  unfoldable pub on_event : Event m → WhepServerTask → Option (WebrtcTaskOutput m) × WhepServerTask
  on_event connected t = (
    none,
    record t {
      outputs =
          t.outputs
          ++ WebrtcTaskOutput.subscribe_track (track_id_builder hash t.channel audio)
            ∷ WebrtcTaskOutput.subscribe_track (track_id_builder hash t.channel video)
            ∷ [];
    },
  )
  on_event (media_added mid audio) t = (none, record t { audio_mid = some mid })
  on_event (media_added mid video) t = (none, record t { video_mid = some mid })
  on_event (ice_connection_state_change disconnected) t = (some WebrtcTaskOutput.task_ended, t)
  on_event (ice_connection_state_change other_state) t = (none, t)
  on_event (keyframe_request kind) t = (
    some (WebrtcTaskOutput.request_keyframe_track (track_id_builder hash t.channel video) kind),
    t,
  )
  on_event (rtp_packet rtp) t = (none, t)
  on_event other_event t = (none, t)

  unfoldable pub on_output :
      Option (Output m) → WhepServerTask → Option (WebrtcTaskOutput m) × WhepServerTask
  unfolding on_event
  on_output none t = (none, t)
  on_output (some (Output.timeout at)) t = (none, record t { timeout = some at })
  on_output (some (transmit source destination contents)) t =
      (some (WebrtcTaskOutput.io (udp_socket_send source destination contents)), t)
  on_output (some (event e)) t = on_event e t

  unfoldable pub pop_action : ℕ → WhepServerTask → Option (WebrtcTaskOutput m) × WhepServerTask
  unfolding on_output waits
  pop_action now t = elim t.outputs [
    | o ∷ rest ↦ (some o, record t { outputs = rest })
    | [] ↦
        if waits now t.timeout
        then (none, t)
        else (let (o, session) = poll_output t.rtc in on_output o (record t { rtc = session }))
  ]

  -- How often `pop_action` answers before it says `None`.
  abbrev pub pending : WhepServerTask → ℕ
  pending t = length t.outputs + queued t.rtc
