-- ===== src/Tests/WorkerTests.antt =====
-- The worker's functions at a publisher (task 0) and a viewer (task 1) of one room.
use tiny_media_server.Prelude.{
  ℕ, ◌≡◌, refl, List, [], ◌∷◌, none, some, ok, halt, missing_task, unparsed_stun, Ends, string_key,
  retain, nat_key,
}
use tiny_media_server.Prelude.SocketAddr.{addr_key}
use tiny_media_server.Prelude.Map.{get, insert, remove}
use tiny_media_server.Tasks.{TrackMedia, WebrtcTaskInput}
use tiny_media_server.Tasks.Whep
use tiny_media_server.Tasks.Whep.{WhepServerTask}
use tiny_media_server.Tasks.Roles.{source}
use tiny_media_server.Tasks.Compose
use tiny_media_server.Tasks.Compose.{whip, whep}
use tiny_media_server.Worker.State.{Env, BusChannelContainer, TaskContainer, Worker, new}
use tiny_media_server.Worker.PopTask.{add_source}
use tiny_media_server.Worker.PopTask.Tracks.{announce_lem}
use tiny_media_server.Worker.Inbox.{deliver}
use tiny_media_server.Worker.Inbox.Forwarding.{Fed, deliver_lem}
use tiny_media_server.Worker.Ended.{forget, pop_ended_tasks}
use tiny_media_server.Worker.Ended.Removal.{
  tasks-pop_ended_tasks, forget_routes, pop_ended_tasks_lem,
}
use tiny_media_server.Worker.Ended.Channels.{
  sources_of, consumers_of, forget_consumers, sources-pop_ended_tasks,
}
use tiny_media_server.Worker.Udp.{find_slot, process_udp}
use tiny_media_server.Worker.Udp.Demux.{find_slot_again, stray_datagram}
use tiny_media_server.Worker.Cycle.{process_cycle}
use tiny_media_server.Worker.Invariant.{EnvLaws, IsRouted, CycleHalt}
use tiny_media_server.Worker.Invariant.Cycle.{new-IsRouted, process_cycle-Ends}
use tiny_media_server.Server.{server_env, server_laws}
use tiny_media_server.Tests.Bench.{media, rtc_api, udp, crates, rtc_laws, udp_laws, peer}

abbrev env : Env
env = server_env media rtc_api udp crates

abbrev laws : EnvLaws env
laws = server_laws media rtc_api udp crates rtc_laws udp_laws

abbrev publisher : TaskContainer env
publisher = record {
  task = whip (record {
    ice_ufrag = "ufrag";
    timeout = none;
    rtc = [];
    outputs = [];
    audio_mid = none;
    video_mid = some 7;
    audio_track_id = 1;
    video_track_id = 2;
  });
  remotes = peer ∷ [];
  sub_channels = [];
  pub_channels = 1 ∷ 2 ∷ [];
}

abbrev viewer : TaskContainer env
viewer = record {
  task = whep (record {
    channel = "room";
    ice_ufrag = "other";
    timeout = none;
    rtc = [];
    outputs = [];
    audio_mid = none;
    video_mid = some 7;
  });
  remotes = [];
  sub_channels = 1 ∷ 2 ∷ [];
  pub_channels = [];
}

abbrev channel : List ℕ → List ℕ → BusChannelContainer
channel sources consumers = record { sources = sources; consumers = consumers }

abbrev room : Worker env
room = record {
  task_id_seed = 2;
  udp_socket_local_addr = record { ip = 1; port = 4000 };
  shared = record {
    udp_socket = (9 ∷ [], peer) ∷ [];
    ext_send = [];
    bus_send = [];
    bus_channels = (1, channel (0 ∷ []) (1 ∷ [])) ∷ (2, channel (0 ∷ []) (1 ∷ [])) ∷ [];
    ended_tasks = 0 ∷ [];
  };
  tasks = (0, publisher) ∷ (1, viewer) ∷ [];
  task_remotes = (peer, 0) ∷ [];
  task_ufrags = ("ufrag", 0) ∷ ("other", 1) ∷ [];
  dtls_cert = tt;
}

-- The room after the publisher's end.
abbrev left : Worker env
left = record room {
  shared = record room.shared { ended_tasks = [] };
  tasks = (1, viewer) ∷ [];
  task_remotes = [];
  task_ufrags = ("other", 1) ∷ [];
}

publisher_leaves : pop_ended_tasks env room ≡ ok left
unfolding pop_ended_tasks get insert remove retain Compose.ufrag
publisher_leaves = refl

abbrev packet : TrackMedia media
packet = record { track_id = 2; seq_no = 0; time = 0; header = 96; payload = []; timestamp = 0 }

process_cycle-Ends_example : Ends (IsRouted env laws) (CycleHalt env) (
    process_cycle env
      (record {
        bus_events = [];
        http_events = [];
        tick_time = 1;
        pop_time = 1;
        udp_clock = λ n. 1;
      })
      (new env ((0 ∷ [], peer) ∷ []) [] [] tt))
process_cycle-Ends_example =
    process_cycle-Ends env laws _ (new env ((0 ∷ [], peer) ∷ []) [] [] tt) tt
      (new-IsRouted env laws ((0 ∷ [], peer) ∷ []) [] [] tt tt)

deliver_lem_example :
    Fed env (λ n. n) (WebrtcTaskInput.track_media packet) viewer (get 1 room.tasks)
unfolding deliver get insert Compose.input Whep.input
deliver_lem_example =
    (deliver_lem env (λ n. n) 1 (1 ∷ []) (WebrtcTaskInput.track_media packet) room.tasks room.tasks
        refl refl).1
      viewer refl refl

sources-pop_ended_tasks_example : sources_of 1 left.bus_channels ≡ 0 ∷ []
unfolding get
sources-pop_ended_tasks_example = sources-pop_ended_tasks env room left 1 publisher_leaves

tasks-pop_ended_tasks_example : get 0 left.tasks ≡ none
unfolding get
tasks-pop_ended_tasks_example = tasks-pop_ended_tasks env room left 0 publisher_leaves

forget_consumers_example : consumers_of 1 (forget env 1 viewer room).bus_channels ≡ []
unfolding get retain
forget_consumers_example = forget_consumers env 1 viewer room 1

forget_routes_example : get "ufrag" (forget env 0 publisher room).task_ufrags ≡ none
unfolding Compose.ufrag
forget_routes_example = (forget_routes env 0 publisher room).0

abbrev twice : Worker env
twice = record room { shared = record room.shared { ended_tasks = 0 ∷ 0 ∷ [] } }

pop_ended_tasks_lem_example : pop_ended_tasks env twice ≡ halt missing_task
unfolding get
pop_ended_tasks_lem_example =
    (pop_ended_tasks_lem env twice ((publisher, refl), ((publisher, refl), tt))).0 refl

find_slot_again_example : find_slot env [] peer room ≡ ok (some 0, room)
unfolding find_slot get
find_slot_again_example = find_slot_again env (9 ∷ []) [] peer 0 room room refl

abbrev stray : Worker env
stray = new env (([], peer) ∷ []) [] [] tt

stray_datagram_example : process_udp env (λ n. n) stray ≡ halt unparsed_stun
unfolding new get
stray_datagram_example = stray_datagram env (λ n. n) [] peer [] stray refl refl refl

announce_lem_example :
    (sources_of 1 (add_source 1 5 room.bus_channels) ≡ 0 ∷ 5 ∷ [])
    × (consumers_of 1 (add_source 1 5 room.bus_channels) ≡ 1 ∷ [])
unfolding get
announce_lem_example = announce_lem source 1 5 1 room.bus_channels
