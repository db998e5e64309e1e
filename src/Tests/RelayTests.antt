-- ===== src/Tests/RelayTests.antt =====
-- A packet and a request for a keyframe on their ways between a publisher and a viewer of a room.
use tiny_media_server.Prelude.{
  ℕ, zero, suc, ◌≡◌, refl, [], ◌∷◌, none, some, ok, Ends, arith, nat_key,
}
use tiny_media_server.Prelude.Map.{get}
use tiny_media_server.Tasks.Session.{waits}
use tiny_media_server.Tasks.{TrackMedia, track_id_builder, WebrtcTaskOutput}
use tiny_media_server.Tasks.Str0m.{RtpPacket, transmit, event, rtp_packet, keyframe_request}
use tiny_media_server.Tasks.Rtc.{RtcApi, RtcLaws}
use tiny_media_server.Tasks.Roles.{Role, source, consumer, InputPanic}
use tiny_media_server.Tasks.Whip.{WhipServerTask}
use tiny_media_server.Tasks.Whep.{WhepServerTask}
use tiny_media_server.Tasks.Compose
use tiny_media_server.Tasks.Compose.{ComposeTask, whip, whep}
use tiny_media_server.Worker.State.{
  Env, BusChannelContainer, TaskContainer, Shared, Worker, track_keyframe_request,
}
use tiny_media_server.Worker.State
use tiny_media_server.Worker.PopTask.{handle_action}
use tiny_media_server.Worker.Inbox.{on_bus_event}
use tiny_media_server.Worker.Invariant.{EnvLaws, IsRouted}
use tiny_media_server.Server.{server_env, server_laws}
use tiny_media_server.Server.Relay.{packet_relayed}
use tiny_media_server.Server.Keyframe.{keyframe_relayed}
use tiny_media_server.Tests.Bench.{media, rtc_api, udp, crates, rtc_laws, udp_laws, peer}

-- What is written to a session is what it sends next.
abbrev api : RtcApi media
api = record rtc_api {
  write_rtp = λ mid x s. transmit peer peer x.payload ∷ s;
  request_keyframe = λ mid kind s. transmit peer peer (kind ∷ []) ∷ s;
}

abbrev api_laws : RtcLaws api
api_laws = record { poll-Uses = rtc_laws.poll-Uses }

abbrev env : Env
env = server_env media api udp crates

abbrev laws : EnvLaws env
laws = server_laws media api udp crates api_laws udp_laws

abbrev packet : RtpPacket media
packet = record { seq_no = 4; time = 0; header = 96; payload = 5 ∷ 6 ∷ []; timestamp = 3 }

abbrev publisher : WhipServerTask media api
publisher = record {
  ice_ufrag = "ufrag";
  timeout = none;
  rtc = event (rtp_packet packet) ∷ [];
  outputs = [];
  audio_mid = none;
  video_mid = some 7;
  audio_track_id = 1;
  video_track_id = 2;
}

abbrev viewer : WhepServerTask media api
viewer = record {
  channel = "room";
  ice_ufrag = "other";
  timeout = some 1;
  rtc = event (keyframe_request 8) ∷ [];
  outputs = [];
  audio_mid = none;
  video_mid = some 7;
}

abbrev with_task : ComposeTask media api → TaskContainer env
with_task t = record { task = t; remotes = []; sub_channels = []; pub_channels = [] }

abbrev channel : BusChannelContainer
channel = record { sources = 0 ∷ []; consumers = 1 ∷ [] }

abbrev room : Worker env
room = record {
  task_id_seed = 2;
  udp_socket_local_addr = peer;
  shared = record {
    udp_socket = [];
    ext_send = [];
    bus_send = [];
    bus_channels = (1, channel) ∷ (2, channel) ∷ [];
    ended_tasks = [];
  };
  tasks = (0, with_task (whip publisher)) ∷ (1, with_task (whep viewer)) ∷ [];
  task_remotes = [];
  task_ufrags = [];
  dtls_cert = tt;
}

abbrev role : ℕ → Role
role zero = source
role (suc i) = consumer

room-IsRouted : IsRouted env laws room
room-IsRouted = record {
  role = role;
  fits = record {
    tasks_fit = ((tt, omega arith), ((tt, omega arith), tt));
    channels_fit = (
      (((refl, omega arith), tt), ((refl, omega arith), tt)),
      ((((refl, omega arith), tt), ((refl, omega arith), tt)), tt),
    );
    holds = tt;
  };
}

-- The viewer's session has the packet's payload to send.
packet_relayed_example :
    (md : TrackMedia media) × (Compose.pop_action media api 0 (whip publisher)
      ≡ (some (WebrtcTaskOutput.track_media md), whip (record publisher { rtc = [] })))
    × (handle_action env 0
          (WebrtcTaskOutput.track_media md)
          (with_task (whip publisher))
          room.shared
        ≡ ok (
          with_task (whip publisher),
          record room.shared { bus_send = State.track_media md ∷ [] },
        ))
    × Ends
        (λ tasks.
          get 1 tasks
          ≡ some (
              with_task (
                whep (record viewer {
                  rtc = transmit peer peer (5 ∷ 6 ∷ []) ∷ viewer.rtc;
                  timeout = none;
                }))))
        (λ _. ⊥)
        (on_bus_event env (λ n. n) (State.track_media md) room)
unfolding get waits
packet_relayed_example =
    packet_relayed media api udp crates api_laws udp_laws publisher [] packet 0 0
      (with_task (whip publisher)) room.shared (λ n. n) room channel 1 (with_task (whep viewer))
      viewer 7 refl refl refl room-IsRouted refl refl refl refl refl refl refl

-- The publisher's session has the request to send.
keyframe_relayed_example :
    (Compose.pop_action media api 2 (whep viewer)
      ≡ (some (WebrtcTaskOutput.request_keyframe_track 2 8), whep (record viewer { rtc = [] })))
    × (handle_action env 1
          (WebrtcTaskOutput.request_keyframe_track 2 8)
          (with_task (whep viewer))
          room.shared
        ≡ ok (
          with_task (whep viewer),
          record room.shared { bus_send = track_keyframe_request 2 8 ∷ [] },
        ))
    × Ends
        (λ tasks.
          get 0 tasks
          ≡ some (
              with_task
                (whip (record publisher { rtc = transmit peer peer (8 ∷ []) ∷ publisher.rtc }))))
        InputPanic
        (on_bus_event env (λ n. n) (track_keyframe_request 2 8) room)
unfolding get waits track_id_builder
keyframe_relayed_example =
    keyframe_relayed media api udp crates api_laws udp_laws viewer [] 8 2 1
      (with_task (whep viewer)) room.shared (λ n. n) room channel 0 (with_task (whip publisher))
      publisher 7 refl refl refl room-IsRouted refl refl refl refl refl refl refl refl
