-- ===== src/Tasks/Whip/Laws.antt =====
-- What a publisher's task keeps, says and takes.
use tiny_media_server.Prelude.{
  ℕ, ◌<◌, ◌≡◌, ◌≢◌, refl, List, All, All-append, Option, none, some, Ends, Ends-bind, arith,
}
use tiny_media_server.Prelude.SocketAddr.{SocketAddr}
use tiny_media_server.Io.{HttpRequest, http_request, udp_socket_recv}
use tiny_media_server.Tasks.{WebrtcTaskInput}
use tiny_media_server.Tasks.Str0m.{
  Media, Output, Event, audio, video, disconnected, other_state, connected, media_added,
  ice_connection_state_change, rtp_packet, transmit, event,
}
use tiny_media_server.Tasks.Rtc.{RtcApi, RtcLaws}
use tiny_media_server.Tasks.Session.{add_local_candidates}
use tiny_media_server.Tasks.Session.Laws.{NewPanic, add_local_candidates-Ends}
use tiny_media_server.Tasks.Roles.{source, Says, SaysIf, Uses, Takes, InputPanic}
use tiny_media_server.Tasks.Whip.{
  WhipServerTask, new, tick, input, on_event, on_output, pop_action, pending,
}

module _ (m : Media) (r : RtcApi m) where
  abbrev pub IsPublisher : WhipServerTask m r → Type 0
  IsPublisher t = All (Says m source) t.outputs

  pub tick_keeps :
      (now : ℕ) (t : WhipServerTask m r)
      → ((tick m r now t).1.outputs ≡ t.outputs) × ((tick m r now t).1.ice_ufrag ≡ t.ice_ufrag)
  unfolding tick
  tick_keeps now t = ground arith

  pub input-Ends :
      (now : ℕ) (i : WebrtcTaskInput m) (t : WhipServerTask m r)
      → IsPublisher t
      → Takes m source i
      → Ends (λ s. IsPublisher s.1 × (s.1.ice_ufrag ≡ t.ice_ufrag)) InputPanic (input m r now i t)
  unfolding input
  input-Ends now (WebrtcTaskInput.io (http_request req)) t h k = absurd k
  input-Ends now (WebrtcTaskInput.io (udp_socket_recv from to buf)) t h k = ground arith
  input-Ends now (WebrtcTaskInput.track_media media) t h k = absurd k
  input-Ends now (WebrtcTaskInput.request_keyframe_track track kind) t h k = ground arith

  -- What one event does: the outputs stay a publisher's, and so does what is said at once.
  on_event_keeps :
      (e : Event m) (t : WhipServerTask m r)
      → IsPublisher t
      → IsPublisher (on_event m r e t).1 × SaysIf m source (on_event m r e t).0
  unfolding on_event
  on_event_keeps connected t h = (All-append (Says m source) t.outputs _ h (tt, (tt, tt)), tt)
  on_event_keeps (media_added mid audio) t h = (h, tt)
  on_event_keeps (media_added mid video) t h = (h, tt)
  on_event_keeps (ice_connection_state_change disconnected) t h = (h, tt)
  on_event_keeps (ice_connection_state_change other_state) t h = (h, tt)
  on_event_keeps _ t h = (h, tt)

  on_output_keeps :
      (o : Option (Output m)) (t : WhipServerTask m r)
      → IsPublisher t
      → IsPublisher (on_output m r o t).1 × SaysIf m source (on_output m r o t).0
  unfolding on_output
  on_output_keeps (some (event e)) t h = on_event_keeps e t h
  on_output_keeps none t h = (h, tt)
  on_output_keeps (some (Output.timeout at)) t h = (h, tt)
  on_output_keeps (some (transmit src dst contents)) t h = (h, tt)

  pub pop_keeps :
      (now : ℕ) (t : WhipServerTask m r)
      → IsPublisher t
      → IsPublisher (pop_action m r now t).1 × SaysIf m source (pop_action m r now t).0
  unfolding pop_action
  pop_keeps now t h = ground (
    arith,
    on_output_keeps (r.poll_output t.rtc).0 (record t { rtc = (r.poll_output t.rtc).1 }) h,
  )

  on_event-ufrag :
      (e : Event m) (t : WhipServerTask m r) → (on_event m r e t).1.ice_ufrag ≡ t.ice_ufrag
  unfolding on_event
  on_event-ufrag e t = ground arith

  on_output-ufrag :
      (o : Option (Output m)) (t : WhipServerTask m r)
      → (on_output m r o t).1.ice_ufrag ≡ t.ice_ufrag
  unfolding on_output
  on_output-ufrag (some (event e)) t = on_event-ufrag e t
  on_output-ufrag none t = refl
  on_output-ufrag (some (Output.timeout at)) t = refl
  on_output-ufrag (some (transmit src dst contents)) t = refl

  pub pop-ufrag :
      (now : ℕ) (t : WhipServerTask m r) → (pop_action m r now t).1.ice_ufrag ≡ t.ice_ufrag
  unfolding pop_action
  pop-ufrag now t =
      ground (
        arith,
        on_output-ufrag (r.poll_output t.rtc).0 (record t { rtc = (r.poll_output t.rtc).1 }),
      )

  pub new-Ends :
      (cert : r.DtlsCert) (req : HttpRequest) (addrs : List SocketAddr) (entropy : ℕ)
      → Ends IsPublisher NewPanic (new m r cert req addrs entropy)
  unfolding new
  new-Ends cert req addrs entropy =
      Ends-bind (λ _. Unit) IsPublisher NewPanic (add_local_candidates m r addrs _) _
        (add_local_candidates-Ends m r addrs _) λ rtc _ _. ground arith

  on_event-Uses :
      (e : Event m) (t : WhipServerTask m r) (n : ℕ)
      → pending m r t < n
      → Uses (on_event m r e t).0 n (pending m r (on_event m r e t).1)
  unfolding on_event
  on_event-Uses (ice_connection_state_change disconnected) t n h = h
  on_event-Uses (ice_connection_state_change other_state) t n h = tt
  on_event-Uses (media_added mid audio) t n h = tt
  on_event-Uses (media_added mid video) t n h = tt
  on_event-Uses (rtp_packet rtp) t n h = h
  on_event-Uses _ t n h = tt

  on_output-Uses :
      (o : Option (Output m)) (t : WhipServerTask m r) (n : ℕ)
      → ((p : Output m) → o ≡ some p → ((at : ℕ) → p ≢ Output.timeout at) → pending m r t < n)
      → Uses (on_output m r o t).0 n (pending m r (on_output m r o t).1)
  unfolding on_output
  on_output-Uses none t n h = tt
  on_output-Uses (some (Output.timeout at)) t n h = tt
  on_output-Uses (some (transmit src dst contents)) t n h = h _ refl (λ at e. cc)
  on_output-Uses (some (event e)) t n h = on_event-Uses e t n (h _ refl (λ at e. cc))

  -- Every answer of `pop_action` uses up an output of the task or of its session.
  pub pop-Uses :
      (laws : RtcLaws r) (now : ℕ) (t : WhipServerTask m r)
      → Uses (pop_action m r now t).0 (pending m r t) (pending m r (pop_action m r now t).1)
  unfolding pop_action
  pop-Uses laws now t = ground (
    arith,
    on_output-Uses (r.poll_output t.rtc).0 (record t { rtc = (r.poll_output t.rtc).1 })
        (pending m r t) (λ p e k. omega (arith, laws.poll-Uses t.rtc p e k)),
  )
