-- ===== src/Tests/RoomTests.antt =====
-- A publisher that has more to broadcast than the bus has room for.
use tiny_media_server.Prelude.{
  ℕ, suc, ◌-◌, ◌≡◌, refl, List, [], ◌∷◌, ◌++◌, length, length-append, none, some, halt, full_bus,
  ltb, if◌then◌else◌, arith,
}
use tiny_media_server.Tasks.{from_raw}
use tiny_media_server.Tasks.Session.{waits}
use tiny_media_server.Tasks.Str0m.{RtpPacket, event, rtp_packet}
use tiny_media_server.Tasks.Whip
use tiny_media_server.Tasks.Whip.{WhipServerTask}
use tiny_media_server.Tasks.Compose
use tiny_media_server.Tasks.Compose.{ComposeTask, whip}
use tiny_media_server.Worker.State.{Env, BusEvent, TaskContainer, Shared}
use tiny_media_server.Worker.PopTask.{pop_task}
use tiny_media_server.Worker.PopTask.Room.{BusLaws, Says, pop_task-room}
use tiny_media_server.Worker.Invariant.{EnvLaws}
use tiny_media_server.Server.{Crates, server_env, server_laws}
use tiny_media_server.Tests.Bench.{media, rtc_api, udp, crates, rtc_laws, udp_laws}

-- A bus of one place.
abbrev narrow : Crates media
narrow = record crates { broadcast = λ e b. if ltb (length b) 1 then some (b ++ e ∷ []) else none }

abbrev env : Env
env = server_env media rtc_api udp narrow

abbrev laws : EnvLaws env
laws = server_laws media rtc_api udp narrow rtc_laws udp_laws

taken :
    (e : BusEvent media) (b : List (BusEvent media)) (n : ℕ)
    → 1 - length b ≡ suc n
    → (b' : List (BusEvent media)) × ((if ltb (length b) 1 then some (b ++ e ∷ []) else none)
        ≡ some b')
      × (1 - length b' ≡ n)
taken e b n h = (b ++ e ∷ [], ground (arith, h), omega (arith, h, length-append b (e ∷ [])))

refused :
    (e : BusEvent media) (b : List (BusEvent media))
    → 1 - length b ≡ 0
    → (if ltb (length b) 1 then some (b ++ e ∷ []) else none) ≡ none
refused e b h = ground (arith, h)

abbrev bus_laws : BusLaws env
bus_laws = record { room = λ b. 1 - length b; has_room = taken; no_room = refused }

abbrev packet : RtpPacket media
packet = record { seq_no = 4; time = 0; header = 96; payload = 5 ∷ 6 ∷ []; timestamp = 3 }

abbrev idle : WhipServerTask media rtc_api
idle = record {
  ice_ufrag = "ufrag";
  timeout = none;
  rtc = [];
  outputs = [];
  audio_mid = none;
  video_mid = some 7;
  audio_track_id = 1;
  video_track_id = 2;
}

-- Two packets wait in its session.
abbrev talking : WhipServerTask media rtc_api
talking = record idle { rtc = event (rtp_packet packet) ∷ event (rtp_packet packet) ∷ [] }

abbrev container : TaskContainer env
container = record { task = whip talking; remotes = []; sub_channels = []; pub_channels = [] }

abbrev shared : Shared env
shared = record {
  udp_socket = [];
  ext_send = [];
  bus_send = [];
  bus_channels = [];
  ended_tasks = [];
}

talking-Says :
    Says env 0
      (whip talking)
      (from_raw media 2 packet ∷ from_raw media 2 packet ∷ [])
      (whip (record idle { timeout = some 50 }))
unfolding Compose.pop_action Whip.pop_action Whip.on_output Whip.on_event waits
talking-Says = (refl, (refl, (refl, refl)))

pop_task-room_example : pop_task env 0 0 container shared ≡ halt full_bus
pop_task-room_example =
    (pop_task-room env laws bus_laws 0 0 container shared
        (from_raw media 2 packet ∷ from_raw media 2 packet ∷ [])
        (whip (record idle { timeout = some 50 })) talking-Says).1
      (omega arith)
