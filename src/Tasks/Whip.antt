-- ===== src/Tasks/Whip.antt =====
-- src/tasks/whip.rs: the task of a publisher.
pub mod Laws
pub mod Answers
use tiny_media_server.Prelude.{
  ℕ, ◌+◌, String, List, [], ◌∷◌, ◌++◌, Bool, true, false, Option, none, some, Outcome, ok, halt,
  unexpected_event, unimplemented_input, unparsed_udp, no_video_stream, unparsed_offer,
  refused_offer, ◌>>=◌, ltb, leb, ◌==◌, nat_key, if◌then◌else◌, length,
}
use tiny_media_server.Prelude.SocketAddr.{SocketAddr}
use tiny_media_server.Io.{
  HttpRequest, IoEvent, IoAction, http_request, udp_socket_recv, http_response, udp_socket_send,
}
use tiny_media_server.Http.{get_http_auth}
use tiny_media_server.Tasks.{
  WebrtcTaskInput, WebrtcTaskOutput, TrackMedia, from_raw, track_id_builder,
}
use tiny_media_server.Tasks.Str0m.{
  Media, MediaKind, audio, video, IceConnectionState, disconnected, other_state, RtpPacket, Event,
  connected, media_added, ice_connection_state_change, keyframe_request, rtp_packet, other_event,
  Output, transmit, event,
}
use tiny_media_server.Tasks.Rtc.{RtcApi}
use tiny_media_server.Tasks.Session.{expect, waits, rtc_config, add_local_candidates}

module _ (m : Media) (r : RtcApi m) where
  open m use {Mid, payload_type}
  open r use {
    Rtc, DtlsCert, local_ufrag, build, enable_twcc_feedback, from_sdp_string, accept_offer,
    new_receive, handle_receive, handle_timeout, has_stream_rx, request_keyframe, poll_output, hash,
    queued,
  }

  pub record WhipServerTask : Type 0 where
    pub ice_ufrag : String
    pub timeout : Option ℕ
    pub rtc : Rtc
    pub outputs : List (WebrtcTaskOutput m)
    pub audio_mid : Option Mid
    pub video_mid : Option Mid
    pub audio_track_id : ℕ
    pub video_track_id : ℕ

  -- The answer that the client waits for is the task's first output.
  abbrev pub whip_answer : HttpRequest → List ℕ → WebrtcTaskOutput m
  whip_answer req answer = WebrtcTaskOutput.io (
      http_response (record {
        req_id = req.req_id;
        status = 200;
        headers = ("Content-Type", "application/sdp") ∷ ("Location", "/whip/endpoint/1234") ∷ [];
        body = answer;
      }))

  -- `entropy` is the randomness of the session's ICE credentials.
  unfoldable pub new : DtlsCert → HttpRequest → List SocketAddr → ℕ → Outcome WhipServerTask
  unfolding rtc_config
  new cert req local_addrs entropy = do
    let config = rtc_config m r cert entropy
    let channel = get_http_auth req
    rtc ← add_local_candidates m r local_addrs (enable_twcc_feedback (build config))
    offer ← expect unparsed_offer (from_sdp_string req.body)
    (answer, session) ← expect refused_offer (accept_offer offer rtc)
    ok (record {
      ice_ufrag = local_ufrag config;
      timeout = none;
      rtc = session;
      outputs = whip_answer req answer ∷ [];
      audio_mid = none;
      video_mid = none;
      audio_track_id = track_id_builder hash channel audio;
      video_track_id = track_id_builder hash channel video;
    })

  unfoldable pub tick : ℕ → WhipServerTask → Bool × WhipServerTask
  tick now t = elim t.timeout [
    | none ↦ (false, t)
    | some timeout ↦
        if leb timeout now
        then (true, record t { rtc = handle_timeout now t.rtc; timeout = none })
        else (false, t)
  ]

  unfoldable pub input : ℕ → WebrtcTaskInput m → WhipServerTask → Outcome (Bool × WhipServerTask)
  input now (WebrtcTaskInput.io (http_request req)) t = halt unimplemented_input
  input now (WebrtcTaskInput.io (udp_socket_recv from to buf)) t = do
    receive ← expect unparsed_udp (new_receive from to buf)
    ok (true, record t { rtc = handle_receive now receive t.rtc; timeout = none })
  input now (WebrtcTaskInput.request_keyframe_track track_id kind) t =
      if track_id == t.video_track_id
      then (elim t.video_mid [
        | none ↦ ok (true, t)
        | some mid ↦
            if has_stream_rx mid t.rtc
            then ok (true, record t { rtc = request_keyframe mid kind t.rtc })
            else halt no_video_stream
      ])
      else ok (true, t)
  input now (WebrtcTaskInput.track_media media) t = halt unexpected_event

  unfoldable pub on_event : Event m → WhipServerTask → Option (WebrtcTaskOutput m) × WhipServerTask
  on_event connected t = (
    none,
    record t {
      outputs =
          t.outputs
          ++ WebrtcTaskOutput.publish_track t.audio_track_id
            ∷ WebrtcTaskOutput.publish_track t.video_track_id
            ∷ [];
    },
  )
  on_event (media_added mid audio) t = (none, record t { audio_mid = some mid })
  on_event (media_added mid video) t = (none, record t { video_mid = some mid })
  on_event (ice_connection_state_change disconnected) t = (some WebrtcTaskOutput.task_ended, t)
  on_event (ice_connection_state_change other_state) t = (none, t)
  on_event (rtp_packet rtp) t =
      let track_id : ℕ =
        if payload_type rtp.header == 111 then t.audio_track_id else t.video_track_id in
      (some (WebrtcTaskOutput.track_media (from_raw m track_id rtp)), t)
  on_event (keyframe_request kind) t = (none, t)
  on_event other_event t = (none, t)

  unfoldable pub on_output :
      Option (Output m) → WhipServerTask → Option (WebrtcTaskOutput m) × WhipServerTask
  unfolding on_event
  on_output none t = (none, t)
  on_output (some (Output.timeout at)) t = (none, record t { timeout = some at })
  on_output (some (transmit source destination contents)) t =
      (some (WebrtcTaskOutput.io (udp_socket_send source destination contents)), t)
  on_output (some (event e)) t = on_event e t

  unfoldable pub pop_action : ℕ → WhipServerTask → Option (WebrtcTaskOutput m) × WhipServerTask
  unfolding on_output waits
  pop_action now t = elim t.outputs [
    | o ∷ rest ↦ (some o, record t { outputs = rest })
    | [] ↦
        if waits now t.timeout
        then (none, t)
        else (let (o, session) = poll_output t.rtc in on_output o (record t { rtc = session }))
  ]

  -- How often `pop_action` answers before it says `None`.
  abbrev pub pending : WhipServerTask → ℕ
  pending t = length t.outputs + queued t.rtc
