-- ===== src/Server/Relay.antt =====
-- Media from the session of a publisher to that of a viewer, over the bus of src/worker.rs.
use tiny_media_server.Prelude.{
  ℕ, ◌≡◌, refl, ap, Bool, true, false, not, Option, none, some, ok, [], Ends, Ends-eq, Bool-cases,
  inl, inr, nat_key, ◌==◌, if◌then◌else◌, arith, ok_injective, Outcome, halt, full_bus, ◌>>=◌,
}
use tiny_media_server.Prelude.Map.{get, All-get}
use tiny_media_server.Net.{UdpSocketGeneric, UdpLaws}
use tiny_media_server.Tasks.{WebrtcTaskInput, WebrtcTaskOutput, TrackMedia, from_raw}
use tiny_media_server.Tasks.Str0m.{Media, RtpPacket, event, rtp_packet}
use tiny_media_server.Tasks.Rtc.{RtcApi, RtcLaws, WriteRtp}
use tiny_media_server.Tasks.Session.{waits, expect}
use tiny_media_server.Tasks.Roles.{consumer}
use tiny_media_server.Tasks.Whip
use tiny_media_server.Tasks.Whip.{WhipServerTask}
use tiny_media_server.Tasks.Whep
use tiny_media_server.Tasks.Whep.{WhepServerTask}
use tiny_media_server.Tasks.Compose
use tiny_media_server.Tasks.Compose.{ComposeTask, whip, whep}
use tiny_media_server.Tasks.Compose.Laws.{Plays}
use tiny_media_server.Worker.State.{Env, BusChannelContainer, TaskContainer, Shared, Worker}
use tiny_media_server.Worker.State
use tiny_media_server.Worker.PopTask.{handle_action}
use tiny_media_server.Worker.Inbox.{deliver, on_bus_event}
use tiny_media_server.Worker.Inbox.Forwarding.{Fed, deliver_lem}
use tiny_media_server.Worker.Ended.Removal.{contains, has_repeat}
use tiny_media_server.Worker.Invariant.{EnvLaws, ChannelFits, TasksFit, IsRouted}
use tiny_media_server.Worker.Invariant.Inbox.{deliver-Ends}
use tiny_media_server.Server.{Crates, server_env, server_laws}

-- Payload type 111 is audio.
abbrev is_audio : (m : Media) → RtpPacket m → Bool
is_audio m rtp = m.payload_type rtp.header == 111

-- The packet as it was received, for a stream that does or does not send again on a NACK.
abbrev written : (m : Media) → RtpPacket m → WriteRtp m
written m rtp = record {
  payload_type = m.payload_type rtp.header;
  seq_no = rtp.seq_no;
  rtp_time = m.rtp_timestamp rtp.header;
  wallclock = rtp.timestamp;
  marker = m.marker rtp.header;
  ext_vals = m.ext_vals rtp.header;
  nackable = not (is_audio m rtp);
  payload = rtp.payload;
}

module _ (E : Env) where
  -- What is left of a broadcast: the bus that took it, or the wait for room on it.
  abbrev pub taken_by :
      TaskContainer E → Shared E → Option E.Bus → Outcome (TaskContainer E × Shared E)
  taken_by from s none = halt full_bus
  taken_by from s (some bus) = ok (from, record s { bus_send = bus })

  pub expect-taken_by :
      (from : TaskContainer E) (s : Shared E) (o : Option E.Bus)
      → (expect full_bus o >>= λ bus. ok (from, record s { bus_send = bus })) ≡ taken_by from s o
  expect-taken_by from s none = refl
  expect-taken_by from s (some bus) = refl

module _ (m : Media) (r : RtcApi m) where
  -- The publisher's track of the packet, and the viewer's stream.
  abbrev track_of : RtpPacket m → WhipServerTask m r → ℕ
  track_of rtp p = if is_audio m rtp then p.audio_track_id else p.video_track_id

  abbrev stream_of : RtpPacket m → WhepServerTask m r → Option m.Mid
  stream_of rtp v = if is_audio m rtp then v.audio_mid else v.video_mid

  -- The viewer's task once the packet is written.
  abbrev written_to : m.Mid → RtpPacket m → WhepServerTask m r → WhepServerTask m r
  written_to mid rtp v = record v { rtc = r.write_rtp mid (written m rtp) v.rtc; timeout = none }

  pop_packet :
      (p : WhipServerTask m r) (session : r.Rtc) (rtp : RtpPacket m) (now : ℕ)
      → p.outputs ≡ []
      → waits now p.timeout ≡ false
      → r.poll_output p.rtc ≡ (some (event (rtp_packet rtp)), session)
      → Compose.pop_action m r now (whip p) ≡ (
        some (WebrtcTaskOutput.track_media (from_raw m (track_of rtp p) rtp)),
        whip (record p { rtc = session }),
      )
  unfolding Compose.pop_action Whip.pop_action
  pop_packet p session rtp now said due polled = ground arith

  forward_packet :
      (track : ℕ) (rtp : RtpPacket m) (mid : m.Mid) (v : WhepServerTask m r)
      → stream_of rtp v ≡ some mid
      → r.has_stream_tx mid v.rtc ≡ true
      → Whep.forward m r (Whep.route m r (from_raw m track rtp) v) (from_raw m track rtp) v
        ≡ written_to mid rtp v
  unfolding Whep.forward Whep.route from_raw
  forward_packet track rtp mid v here open_ = elim (Bool-cases (is_audio m rtp)) [
    | inl e ↦ ground arith
    | inr e ↦ ground arith
  ]

  media-Accepts :
      (md : TrackMedia m) (now : ℕ) (t : ComposeTask m r)
      → Plays m r consumer t
      → Ends
          (λ s. Plays m r consumer s.1)
          (λ _. ⊥)
          (Compose.input m r now (WebrtcTaskInput.track_media md) t)
  unfolding Compose.input Whep.input
  media-Accepts md now (whep v) plays =
      (Whep.Laws.input-Ends m r now (WebrtcTaskInput.track_media md) v plays tt).0
  media-Accepts md now (whip p) plays = absurd plays

module _ (m : Media) (r : RtcApi m) (u : UdpSocketGeneric) (c : Crates m) (rtc : RtcLaws r)
    (udp : UdpLaws u) where
  abbrev E : Env
  E = server_env m r u c

  abbrev laws : EnvLaws E
  laws = server_laws m r u c rtc udp

  received_packet :
      (clock : ℕ → ℕ) (track : ℕ) (rtp : RtpPacket m) (x : TaskContainer E) (v : WhepServerTask m r)
      (mid : m.Mid) (after : Option (TaskContainer E))
      → x.task ≡ whep v
      → stream_of m r rtp v ≡ some mid
      → r.has_stream_tx mid v.rtc ≡ true
      → Fed E clock (WebrtcTaskInput.track_media (from_raw m track rtp)) x after
      → after ≡ some (record x { task = whep (written_to m r mid rtp v) })
  unfolding Compose.input Whep.input
  received_packet clock track rtp x v mid after viewer here open_ f =
      let fed : ok (true, whep (written_to m r mid rtp v)) ≡ ok (f.acts, f.task) =
        rw (viewer, forward_packet m r track rtp mid v here open_) at f.fed in
      let task : whep (written_to m r mid rtp v) ≡ f.task = ap (λ s. s.1) (ok_injective fed) in
      rw task f.put

  -- Over any str0m whose sessions run dry and any socket that meets the trait's laws: when a
  -- publisher that has nothing else to say and no deadline ahead is polled and its session has an
  -- RTP packet, it says that packet as media of its audio track, if the payload type is 111, else
  -- of its video track; handle_action broadcasts the media, or waits if the bus has no room; and a
  -- routed worker to whose bus it comes, in which the track's consumers are distinct and list a
  -- live viewer that knows its medium for the packet, with an open stream, delivers it without a
  -- panic: the packet is written to that viewer's stream with its payload, numbers, times, marker
  -- and extensions as received, to be sent again on a NACK only if it is video, and the viewer's
  -- deadline is cleared, and no more.
  pub packet_relayed :
      (p : WhipServerTask m r) (session : r.Rtc) (rtp : RtpPacket m) (now i : ℕ)
      (from : TaskContainer E) (s : Shared E) (clock : ℕ → ℕ) (w : Worker E)
      (channel : BusChannelContainer) (j : ℕ) (x : TaskContainer E) (v : WhepServerTask m r)
      (mid : m.Mid)
      → p.outputs ≡ []
      → waits now p.timeout ≡ false
      → r.poll_output p.rtc ≡ (some (event (rtp_packet rtp)), session)
      → IsRouted E laws w
      → get (track_of m r rtp p) w.bus_channels ≡ some channel
      → has_repeat channel.consumers ≡ false
      → contains j channel.consumers ≡ true
      → get j w.tasks ≡ some x
      → x.task ≡ whep v
      → stream_of m r rtp v ≡ some mid
      → r.has_stream_tx mid v.rtc ≡ true
      → (media : TrackMedia m) × (Compose.pop_action m r now (whip p)
          ≡ (some (WebrtcTaskOutput.track_media media), whip (record p { rtc = session })))
        × (handle_action E i (WebrtcTaskOutput.track_media media) from s
            ≡ taken_by E from s (c.broadcast (State.track_media media) s.bus_send))
        × Ends
            (λ tasks. get j tasks ≡ some (record x { task = whep (written_to m r mid rtp v) }))
            (λ _. ⊥)
            (on_bus_event E clock (State.track_media media) w)
  unfolding handle_action on_bus_event from_raw
  packet_relayed p session rtp now i from s clock w channel j x v mid said due polled h found once
        listed live viewer here open_ =
      let track = track_of m r rtp p in
      let media = from_raw m track rtp in
      let input = WebrtcTaskInput.track_media media in
      (
        media,
        pop_packet m r p session rtp now said due polled,
        expect-taken_by E from s (c.broadcast (State.track_media media) s.bus_send),
        rw (found, on_bus_event, Ends)
            (Ends-eq (TasksFit E laws h.role w.task_id_seed) _ (λ _. ⊥)
              (deliver E clock 0 channel.consumers input w.tasks)
              (deliver-Ends E laws h.role (λ _. ⊥) w.task_id_seed clock 0 channel.consumers consumer
                input w.tasks
                (All-get (ChannelFits h.role w.task_id_seed) track w.bus_channels channel
                  h.fits.channels_fit found).1
                (media-Accepts m r media) h.fits.tasks_fit)
              (λ tasks returned.
                received_packet clock track rtp x v mid (get j tasks) viewer here open_ (
                  (deliver_lem E clock j channel.consumers input w.tasks tasks once returned).1 x
                    listed live))),
      )
