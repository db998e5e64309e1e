-- ===== src/Tests/TaskTests.antt =====
-- The two tasks at concrete requests.
use tiny_media_server.Io.{http_response}
use tiny_media_server.Prelude.{ℕ, ◌≡◌, refl, List, [], ◌∷◌, ◌++◌, none, some, ok, arith, string_key}
use tiny_media_server.Prelude.Map.{get}
use tiny_media_server.Http.{get_http_auth}
use tiny_media_server.Tasks.{WebrtcTaskOutput, track_id_builder}
use tiny_media_server.Tasks.Str0m.{audio, video, connected, media_added, event}
use tiny_media_server.Tasks.Session.{add_local_candidates}
use tiny_media_server.Tasks.Whip
use tiny_media_server.Tasks.Whip.{WhipServerTask, whip_answer}
use tiny_media_server.Tasks.Whep
use tiny_media_server.Tasks.Whep.{WhepServerTask, whep_answer}
use tiny_media_server.Tasks.Pairing.{
  whip_answers, whep_answers, pairing, response_to, Negotiated, audio_of, video_of,
}
use tiny_media_server.Tasks.Clock.{whip_sleeps}
use tiny_media_server.Tests.Bench.{media, rtc_api, whip_request, whep_request}

abbrev publisher : WhipServerTask media rtc_api
publisher = record {
  ice_ufrag = "ufrag";
  timeout = none;
  rtc = event connected ∷ event (media_added 7 video) ∷ [];
  outputs = whip_answer media rtc_api whip_request (5 ∷ []) ∷ [];
  audio_mid = none;
  video_mid = none;
  audio_track_id = 1;
  video_track_id = 2;
}

abbrev viewer : WhepServerTask media rtc_api
viewer = record {
  channel = "room";
  ice_ufrag = "ufrag";
  timeout = none;
  rtc = event connected ∷ event (media_added 7 video) ∷ [];
  outputs = whep_answer media rtc_api whep_request (5 ∷ []) ∷ [];
  audio_mid = none;
  video_mid = none;
}

publisher_made : Whip.new media rtc_api tt whip_request [] 3 ≡ ok publisher
unfolding Whip.new get_http_auth get add_local_candidates track_id_builder
publisher_made = refl

viewer_made : Whep.new media rtc_api tt whep_request [] 3 ≡ ok viewer
unfolding Whep.new get_http_auth get add_local_candidates
viewer_made = refl

whip_answers_example :
    (answer : List ℕ) × Negotiated media rtc_api whip_request answer publisher.rtc
    × (Whip.pop_action media rtc_api 0 publisher ≡ (
      some (
          WebrtcTaskOutput.io
            (http_response (response_to whip_request "/whip/endpoint/1234" answer))),
      record publisher { outputs = [] },
    ))
    × (publisher.audio_track_id ≡ track_id_builder rtc_api.hash (get_http_auth whip_request) audio)
    × (publisher.video_track_id ≡ track_id_builder rtc_api.hash (get_http_auth whip_request) video)
whip_answers_example = whip_answers media rtc_api tt whip_request [] 3 0 publisher publisher_made

whep_answers_example :
    (answer : List ℕ) × Negotiated media rtc_api whep_request answer viewer.rtc
    × (Whep.pop_action media rtc_api 0 viewer ≡ (
      some (
          WebrtcTaskOutput.io
            (http_response (response_to whep_request "/whep/endpoint/1234" answer))),
      record viewer { outputs = [] },
    ))
    × (viewer.channel ≡ get_http_auth whep_request)
whep_answers_example = whep_answers media rtc_api tt whep_request [] 3 0 viewer viewer_made

pairing_example :
    ((Whip.on_event media rtc_api connected publisher).1.outputs
      ≡ publisher.outputs
        ++ WebrtcTaskOutput.publish_track (audio_of media rtc_api (get_http_auth whip_request))
          ∷ WebrtcTaskOutput.publish_track (video_of media rtc_api (get_http_auth whip_request))
          ∷ [])
    × ((Whep.on_event media rtc_api connected viewer).1.outputs
        ≡ viewer.outputs
          ++ WebrtcTaskOutput.subscribe_track (audio_of media rtc_api (get_http_auth whip_request))
            ∷ WebrtcTaskOutput.subscribe_track (video_of media rtc_api (get_http_auth whip_request))
            ∷ [])
unfolding get_http_auth get
pairing_example =
    pairing media rtc_api tt tt whip_request whep_request [] [] 3 3 publisher viewer refl
      publisher_made viewer_made

abbrev sleeping : WhipServerTask media rtc_api
sleeping = record publisher { timeout = some 40; outputs = [] }

whip_sleeps_example : Whip.pop_action media rtc_api 10 sleeping ≡ (none, sleeping)
whip_sleeps_example = whip_sleeps media rtc_api 10 sleeping 40 refl refl (omega arith)
