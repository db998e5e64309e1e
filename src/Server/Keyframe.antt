-- ===== src/Server/Keyframe.antt =====
-- Requests for keyframes from the session of a viewer to that of a publisher, over the bus of
-- src/worker.rs.
use tiny_media_server.Server.Relay.{taken_by, expect-taken_by}
use tiny_media_server.Prelude.{
  ℕ, ◌≡◌, refl, ap, true, false, Option, some, ok, [], Ends, Ends-eq, nat_key, ◌==◌, arith,
  ok_injective, sym, ==_refl, ◌∙◌,
}
use tiny_media_server.Prelude.Map.{get, All-get}
use tiny_media_server.Net.{UdpSocketGeneric, UdpLaws}
use tiny_media_server.Tasks.{WebrtcTaskInput, WebrtcTaskOutput, track_id_builder}
use tiny_media_server.Tasks.Str0m.{Media, video, event, keyframe_request}
use tiny_media_server.Tasks.Rtc.{RtcApi, RtcLaws}
use tiny_media_server.Tasks.Session.{waits}
use tiny_media_server.Tasks.Roles.{source, InputPanic}
use tiny_media_server.Tasks.Whip
use tiny_media_server.Tasks.Whip.{WhipServerTask}
use tiny_media_server.Tasks.Whep
use tiny_media_server.Tasks.Whep.{WhepServerTask}
use tiny_media_server.Tasks.Compose
use tiny_media_server.Tasks.Compose.{whip, whep}
use tiny_media_server.Worker.State.{
  Env, track_keyframe_request, BusChannelContainer, TaskContainer, Shared, Worker,
}
use tiny_media_server.Worker.PopTask.{handle_action}
use tiny_media_server.Worker.Inbox.{deliver, on_bus_event}
use tiny_media_server.Worker.Inbox.Forwarding.{Fed, deliver_lem}
use tiny_media_server.Worker.Ended.Removal.{contains, has_repeat}
use tiny_media_server.Worker.Invariant.{EnvLaws, ChannelFits, TasksFit, IsRouted}
use tiny_media_server.Worker.Invariant.Inbox.{Takes-Accepts, deliver-Ends}
use tiny_media_server.Server.{Crates, server_env, server_laws}

module _ (m : Media) (r : RtcApi m) where
  -- The track that a viewer asks for, and a publisher's task once it has asked its client.
  abbrev video_of : WhepServerTask m r → ℕ
  video_of v = track_id_builder r.hash v.channel video

  abbrev asked : m.Mid → m.KeyframeRequestKind → WhipServerTask m r → WhipServerTask m r
  asked mid kind p = record p { rtc = r.request_keyframe mid kind p.rtc }

  pop_keyframe :
      (v : WhepServerTask m r) (session : r.Rtc) (kind : m.KeyframeRequestKind) (now : ℕ)
      → v.outputs ≡ []
      → waits now v.timeout ≡ false
      → r.poll_output v.rtc ≡ (some (event (keyframe_request kind)), session)
      → Compose.pop_action m r now (whep v) ≡ (
        some (WebrtcTaskOutput.request_keyframe_track (video_of v) kind),
        whep (record v { rtc = session }),
      )
  unfolding Compose.pop_action Whep.pop_action
  pop_keyframe v session kind now said due polled = ground arith

  input_keyframe :
      (track now : ℕ) (kind : m.KeyframeRequestKind) (mid : m.Mid) (p : WhipServerTask m r)
      → (track == p.video_track_id) ≡ true
      → p.video_mid ≡ some mid
      → r.has_stream_rx mid p.rtc ≡ true
      → Compose.input m r now (WebrtcTaskInput.request_keyframe_track track kind) (whip p)
        ≡ ok (true, whip (asked mid kind p))
  unfolding Compose.input Whip.input
  input_keyframe track now kind mid p same here open_ = ground arith

module _ (m : Media) (r : RtcApi m) (u : UdpSocketGeneric) (c : Crates m) (rtc : RtcLaws r)
    (udp : UdpLaws u) where
  abbrev E : Env
  E = server_env m r u c

  abbrev laws : EnvLaws E
  laws = server_laws m r u c rtc udp

  received_keyframe :
      (clock : ℕ → ℕ) (track : ℕ) (kind : m.KeyframeRequestKind) (x : TaskContainer E)
      (p : WhipServerTask m r) (mid : m.Mid) (after : Option (TaskContainer E))
      → x.task ≡ whip p
      → p.video_track_id ≡ track
      → p.video_mid ≡ some mid
      → r.has_stream_rx mid p.rtc ≡ true
      → Fed E clock (WebrtcTaskInput.request_keyframe_track track kind) x after
      → after ≡ some (record x { task = whip (asked m r mid kind p) })
  received_keyframe clock track kind x p mid after publisher same here open_ f =
      let hit : (track == p.video_track_id) ≡ true = rw same (==_refl track) in
      let fed : ok (true, whip (asked m r mid kind p)) ≡ ok (f.acts, f.task) =
        sym (input_keyframe m r track (clock f.turn) kind mid p hit here open_)
        ∙ rw publisher at f.fed in
      let task : whip (asked m r mid kind p) ≡ f.task = ap (λ s. s.1) (ok_injective fed) in
      rw task f.put

  -- Over any str0m whose sessions run dry and any socket that meets the trait's laws: when a
  -- viewer that has nothing else to say and no deadline ahead is polled and its session asks for a
  -- keyframe, it says a request of that kind for the video track of its channel; handle_action
  -- broadcasts the request, or waits if the bus has no room; and a routed worker to whose bus it
  -- comes, in which the track's sources are distinct and list a live publisher of that video track
  -- that knows its video medium, with an open stream, ends in a panic of InputPanic, or else has
  -- asked that publisher's session for a keyframe of that kind, and has changed nothing else of
  -- its task.
  pub keyframe_relayed :
      (v : WhepServerTask m r) (session : r.Rtc) (kind : m.KeyframeRequestKind) (now i : ℕ)
      (from : TaskContainer E) (s : Shared E) (clock : ℕ → ℕ) (w : Worker E)
      (channel : BusChannelContainer) (j : ℕ) (x : TaskContainer E) (p : WhipServerTask m r)
      (mid : m.Mid)
      → v.outputs ≡ []
      → waits now v.timeout ≡ false
      → r.poll_output v.rtc ≡ (some (event (keyframe_request kind)), session)
      → IsRouted E laws w
      → get p.video_track_id w.bus_channels ≡ some channel
      → has_repeat channel.sources ≡ false
      → contains j channel.sources ≡ true
      → get j w.tasks ≡ some x
      → x.task ≡ whip p
      → p.video_track_id ≡ video_of m r v
      → p.video_mid ≡ some mid
      → r.has_stream_rx mid p.rtc ≡ true
      → (Compose.pop_action m r now (whep v) ≡ (
        some (WebrtcTaskOutput.request_keyframe_track p.video_track_id kind),
        whep (record v { rtc = session }),
      ))
        × (handle_action E i (WebrtcTaskOutput.request_keyframe_track p.video_track_id kind) from s
            ≡ taken_by E from s
                (c.broadcast (track_keyframe_request p.video_track_id kind) s.bus_send))
        × Ends
            (λ tasks. get j tasks ≡ some (record x { task = whip (asked m r mid kind p) }))
            InputPanic
            (on_bus_event E clock (track_keyframe_request p.video_track_id kind) w)
  unfolding handle_action on_bus_event
  keyframe_relayed v session kind now i from s clock w channel j x p mid said due polled h found
        once listed live publisher same here open_ =
      let track = p.video_track_id in
      let input = WebrtcTaskInput.request_keyframe_track track kind in
      (
        rw same (pop_keyframe m r v session kind now said due polled),
        expect-taken_by E from s (c.broadcast (track_keyframe_request track kind) s.bus_send),
        rw (found, on_bus_event, Ends)
            (Ends-eq (TasksFit E laws h.role w.task_id_seed) _ InputPanic
              (deliver E clock 0 channel.sources input w.tasks)
              (deliver-Ends E laws h.role InputPanic w.task_id_seed clock 0 channel.sources source
                input w.tasks
                (All-get (ChannelFits h.role w.task_id_seed) track w.bus_channels channel
                  h.fits.channels_fit found).0
                (Takes-Accepts E laws h.role source input tt) h.fits.tasks_fit)
              (λ tasks returned.
                received_keyframe clock track kind x p mid (get j tasks) publisher refl here open_ (
                  (deliver_lem E clock j channel.sources input w.tasks tasks once returned).1 x
                    listed live))),
      )
