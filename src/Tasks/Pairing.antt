-- ===== src/Tasks/Pairing.antt =====
-- How a publisher and its viewers meet: by the channel in their requests' authorization.
use tiny_media_server.Tasks.Session.Laws.{expect-eq_ok}
use tiny_media_server.Prelude.{
  ℕ, String, ◌≡◌, refl, List, [], ◌∷◌, ◌++◌, some, ok, >>=-eq-ok, unparsed_offer, refused_offer,
  arith, ap, ◌∙◌, ok_injective,
}
use tiny_media_server.Prelude.SocketAddr.{SocketAddr}
use tiny_media_server.Io.{HttpRequest, HttpResponse, http_response}
use tiny_media_server.Http.{get_http_auth}
use tiny_media_server.Tasks.{WebrtcTaskOutput, track_id_builder}
use tiny_media_server.Tasks.Str0m.{Media, audio, video, connected}
use tiny_media_server.Tasks.Rtc.{RtcApi}
use tiny_media_server.Tasks.Session.{expect, rtc_config, add_local_candidates}
use tiny_media_server.Tasks.Whip
use tiny_media_server.Tasks.Whip.{WhipServerTask}
use tiny_media_server.Tasks.Whep
use tiny_media_server.Tasks.Whep.{WhepServerTask}

-- The response of an endpoint to a request: 200, with an SDP answer.
abbrev pub response_to : HttpRequest → String → List ℕ → HttpResponse
response_to req location answer = record {
  req_id = req.req_id;
  status = 200;
  headers = ("Content-Type", "application/sdp") ∷ ("Location", location) ∷ [];
  body = answer;
}

module _ (m : Media) (r : RtcApi m) where
  -- The body of the request is an offer, which str0m answers with these bytes and this session.
  abbrev pub Negotiated : HttpRequest → List ℕ → r.Rtc → Type 0
  Negotiated req answer session =
      (offer : r.SdpOffer) × (before : r.Rtc) × (r.from_sdp_string req.body ≡ some offer)
      × (r.accept_offer offer before ≡ some (answer, session))

  -- A new publisher's task has the session that str0m returned with its answer to the offer in the
  -- request's body; the first thing that it says is the response to the request's id with status
  -- 200, the headers Content-Type and Location of the endpoint, and the bytes of that answer,
  -- after which it has no outputs left; its track ids are those of the request's channel.
  pub whip_answers :
      (cert : r.DtlsCert) (req : HttpRequest) (addrs : List SocketAddr) (entropy now : ℕ)
      (t : WhipServerTask m r)
      → Whip.new m r cert req addrs entropy ≡ ok t
      → (answer : List ℕ) × Negotiated req answer t.rtc
        × (Whip.pop_action m r now t ≡ (
          some (WebrtcTaskOutput.io (http_response (response_to req "/whip/endpoint/1234" answer))),
          record t { outputs = [] },
        ))
        × (t.audio_track_id ≡ track_id_builder r.hash (get_http_auth req) audio)
        × (t.video_track_id ≡ track_id_builder r.hash (get_http_auth req) video)
  unfolding Whip.new Whip.pop_action
  whip_answers cert req addrs entropy now t e =
      let (rtc, opened, e₁) =
        >>=-eq-ok
          (add_local_candidates m r addrs
            (r.enable_twcc_feedback (r.build (rtc_config m r cert entropy))))
          _ e in
      let (offer, parsed, e₂) =
        >>=-eq-ok (expect unparsed_offer (r.from_sdp_string req.body)) _ e₁ in
      let (answered, accepted, e₃) =
        >>=-eq-ok (expect refused_offer (r.accept_offer offer rtc)) _ e₂ in
      (
        answered.0,
        (
          offer,
          rtc,
          expect-eq_ok unparsed_offer (r.from_sdp_string req.body) offer parsed,
          expect-eq_ok refused_offer (r.accept_offer offer rtc) answered accepted
              ∙ ap (λ (x : WhipServerTask m r). some (answered.0, x.rtc)) (ok_injective e₃),
        ),
        ground arith,
        ground arith,
        ground arith,
      )

  -- A new viewer's task has the session that str0m returned with its answer to the offer in the
  -- request's body; the first thing that it says is the response to the request's id with status
  -- 200, the headers Content-Type and Location of the endpoint, and the bytes of that answer,
  -- after which it has no outputs left; its channel is the request's.
  pub whep_answers :
      (cert : r.DtlsCert) (req : HttpRequest) (addrs : List SocketAddr) (entropy now : ℕ)
      (t : WhepServerTask m r)
      → Whep.new m r cert req addrs entropy ≡ ok t
      → (answer : List ℕ) × Negotiated req answer t.rtc
        × (Whep.pop_action m r now t ≡ (
          some (WebrtcTaskOutput.io (http_response (response_to req "/whep/endpoint/1234" answer))),
          record t { outputs = [] },
        ))
        × (t.channel ≡ get_http_auth req)
  unfolding Whep.new Whep.pop_action
  whep_answers cert req addrs entropy now t e =
      let (rtc, opened, e₁) =
        >>=-eq-ok (add_local_candidates m r addrs (r.build (rtc_config m r cert entropy))) _ e in
      let (offer, parsed, e₂) =
        >>=-eq-ok (expect unparsed_offer (r.from_sdp_string req.body)) _ e₁ in
      let (answered, accepted, e₃) =
        >>=-eq-ok (expect refused_offer (r.accept_offer offer rtc)) _ e₂ in
      (
        answered.0,
        (
          offer,
          rtc,
          expect-eq_ok unparsed_offer (r.from_sdp_string req.body) offer parsed,
          expect-eq_ok refused_offer (r.accept_offer offer rtc) answered accepted
              ∙ ap (λ (x : WhepServerTask m r). some (answered.0, x.rtc)) (ok_injective e₃),
        ),
        ground arith,
        ground arith,
      )

  -- The audio and the video track of a channel.
  abbrev pub audio_of : String → ℕ
  audio_of channel = track_id_builder r.hash channel audio

  abbrev pub video_of : String → ℕ
  video_of channel = track_id_builder r.hash channel video

  -- If the requests of a new publisher and a new viewer name the same channel, then on connecting
  -- the publisher publishes the audio track of that channel and then its video track, and the
  -- viewer subscribes to the same two in the same order.
  pub pairing :
      (cert₁ cert₂ : r.DtlsCert) (req₁ req₂ : HttpRequest) (addrs₁ addrs₂ : List SocketAddr)
      (entropy₁ entropy₂ : ℕ) (p : WhipServerTask m r) (v : WhepServerTask m r)
      → get_http_auth req₁ ≡ get_http_auth req₂
      → Whip.new m r cert₁ req₁ addrs₁ entropy₁ ≡ ok p
      → Whep.new m r cert₂ req₂ addrs₂ entropy₂ ≡ ok v
      → ((Whip.on_event m r connected p).1.outputs
          ≡ p.outputs
            ++ WebrtcTaskOutput.publish_track (audio_of (get_http_auth req₁))
              ∷ WebrtcTaskOutput.publish_track (video_of (get_http_auth req₁))
              ∷ [])
        × ((Whep.on_event m r connected v).1.outputs
            ≡ v.outputs
              ++ WebrtcTaskOutput.subscribe_track (audio_of (get_http_auth req₁))
                ∷ WebrtcTaskOutput.subscribe_track (video_of (get_http_auth req₁))
                ∷ [])
  unfolding Whip.on_event Whep.on_event
  pairing cert₁ cert₂ req₁ req₂ addrs₁ addrs₂ entropy₁ entropy₂ p v same e₁ e₂ =
      let (x, agreed, said, pa, pv) = whip_answers cert₁ req₁ addrs₁ entropy₁ 0 p e₁ in
      let (y, agreed', heard, vc) = whep_answers cert₂ req₂ addrs₂ entropy₂ 0 v e₂ in
      let ch : get_http_auth req₁ ≡ v.channel = cc in (rw (pa, pv) refl, rw ch refl)
