-- ===== src/Tasks/Whip/Answers.antt =====
-- Which request a publisher's task answers: the one that made it, once.
use tiny_media_server.Prelude.{
  ℕ, ◌≡◌, refl, List, [], ◌∷◌, ◌++◌, Option, none, some, Yields, Yields-any, Yields-bind, arith,
}
use tiny_media_server.Prelude.SocketAddr.{SocketAddr}
use tiny_media_server.Io.{HttpRequest, http_request, udp_socket_recv}
use tiny_media_server.Tasks.{WebrtcTaskInput}
use tiny_media_server.Tasks.Str0m.{
  Media, Output, Event, audio, video, disconnected, other_state, connected, media_added,
  ice_connection_state_change, rtp_packet, transmit, event,
}
use tiny_media_server.Tasks.Rtc.{RtcApi}
use tiny_media_server.Tasks.Session.{add_local_candidates}
use tiny_media_server.Tasks.Answers.{answers, owed}
use tiny_media_server.Tasks.Whip.{WhipServerTask, new, input, on_event, on_output, pop_action}

module _ (m : Media) (r : RtcApi m) where
  pub new-owed :
      (cert : r.DtlsCert) (req : HttpRequest) (addrs : List SocketAddr) (entropy : ℕ)
      → Yields (λ t. owed m t.outputs ≡ req.req_id ∷ []) (new m r cert req addrs entropy)
  unfolding new
  new-owed cert req addrs entropy =
      Yields-bind (λ _. Unit) _ (add_local_candidates m r addrs _) _
        (Yields-any (add_local_candidates m r addrs _)) λ rtc _. ground arith

  pub input-outputs :
      (now : ℕ) (i : WebrtcTaskInput m) (t : WhipServerTask m r)
      → Yields (λ s. s.1.outputs ≡ t.outputs) (input m r now i t)
  unfolding input
  input-outputs now (WebrtcTaskInput.io (http_request req)) t = tt
  input-outputs now (WebrtcTaskInput.io (udp_socket_recv from to buf)) t = ground arith
  input-outputs now (WebrtcTaskInput.track_media media) t = ground arith
  input-outputs now (WebrtcTaskInput.request_keyframe_track track kind) t = ground arith

  -- With nothing left to say, the session's own outputs answer no request.
  on_event-silent :
      (e : Event m) (t : WhipServerTask m r)
      → t.outputs ≡ []
      → (answers m (on_event m r e t).0 ≡ []) × (owed m (on_event m r e t).1.outputs ≡ [])
  unfolding on_event
  on_event-silent connected t h = (refl, rw h refl)
  on_event-silent (media_added mid audio) t h = (refl, rw h refl)
  on_event-silent (media_added mid video) t h = (refl, rw h refl)
  on_event-silent (ice_connection_state_change disconnected) t h = (refl, rw h refl)
  on_event-silent (ice_connection_state_change other_state) t h = (refl, rw h refl)
  on_event-silent (rtp_packet rtp) t h = (refl, rw h refl)
  on_event-silent _ t h = (refl, rw h refl)

  on_output-silent :
      (o : Option (Output m)) (t : WhipServerTask m r)
      → t.outputs ≡ []
      → (answers m (on_output m r o t).0 ≡ []) × (owed m (on_output m r o t).1.outputs ≡ [])
  unfolding on_output
  on_output-silent none t h = (refl, rw h refl)
  on_output-silent (some (Output.timeout at)) t h = (refl, rw h refl)
  on_output-silent (some (transmit src dst contents)) t h = (refl, rw h refl)
  on_output-silent (some (event e)) t h = on_event-silent e t h

  pub pop-owed :
      (now : ℕ) (t : WhipServerTask m r)
      → owed m t.outputs
        ≡ answers m (pop_action m r now t).0 ++ owed m (pop_action m r now t).1.outputs
  unfolding pop_action
  pop-owed now t =
      ground (
        arith,
        on_output-silent (r.poll_output t.rtc).0 (record t { rtc = (r.poll_output t.rtc).1 }),
      )

  pub pop_last :
      (now : ℕ) (t : WhipServerTask m r)
      → (pop_action m r now t).0 ≡ none
      → owed m (pop_action m r now t).1.outputs ≡ []
  unfolding pop_action
  pop_last now t h =
      ground (
        arith,
        on_output-silent (r.poll_output t.rtc).0 (record t { rtc = (r.poll_output t.rtc).1 }),
      )
