-- ===== src/Tests/ServerTests.antt =====
-- The worker at work.
use tiny_media_server.Worker.Invariant.Cycle.{new-IsRouted}
use tiny_media_server.Worker.Ids.{IsSeeded, Keeps}
use tiny_media_server.Server.Ids.{on_http_request_lem}
use tiny_media_server.Prelude.{◌≡◌, refl, List, [], ◌∷◌, Ends, none, inl, halt, unparsed_offer}
use tiny_media_server.Io.{http_request}
use tiny_media_server.Tasks.Rtc.{RtcApi}
use tiny_media_server.Worker.Inbox.{process_http, on_http_request}
use tiny_media_server.Worker.State.{Env, Worker, new}
use tiny_media_server.Worker.Cycle.{Arrivals}
use tiny_media_server.Worker.Invariant.{EnvLaws, IsRouted, CycleHalt}
use tiny_media_server.Server.{server_env, server_laws, run, server_runs}
use tiny_media_server.Server.Answers.{requests_answered}
use tiny_media_server.Server.Offers.{bad_offer}
use tiny_media_server.Tests.SenderBench.{attempted, sender_laws}
use tiny_media_server.Tests.Bench.{
  media, rtc_api, udp, crates, rtc_laws, udp_laws, peer, whip_request, whep_request,
}

abbrev env : Env
env = server_env media rtc_api udp crates

abbrev laws : EnvLaws env
laws = server_laws media rtc_api udp crates rtc_laws udp_laws

-- A publisher comes in one cycle, a viewer in the next.
abbrev cycles : List (Arrivals env)
cycles =
    record {
      bus_events = [];
      http_events = (http_request whip_request, 3, 10) ∷ [];
      tick_time = 10;
      pop_time = 10;
      udp_clock = λ n. 10;
    }
    ∷ record {
      bus_events = [];
      http_events = (http_request whep_request, 4, 20) ∷ [];
      tick_time = 20;
      pop_time = 20;
      udp_clock = λ n. 20;
    }
    ∷ []

-- The peer's STUN message and its last word lie in the socket.
abbrev start : Worker env
start = new env ((0 ∷ [], peer) ∷ (1 ∷ [], peer) ∷ []) [] [] tt

server_runs_example : Ends (IsRouted env laws) (CycleHalt env) (run env cycles start)
server_runs_example =
    server_runs media rtc_api udp crates rtc_laws udp_laws ((0 ∷ [], peer) ∷ (1 ∷ [], peer) ∷ []) []
      [] tt cycles tt ((tt, tt), ((tt, tt), tt))

-- The two requests are answered, in their order.
requests_answered_example :
    Ends
      (λ w. IsRouted env laws w × (attempted w.ext_send ≡ 0 ∷ 1 ∷ []))
      (CycleHalt env)
      (run env cycles start)
requests_answered_example =
    requests_answered media rtc_api udp crates rtc_laws udp_laws sender_laws
      ((0 ∷ [], peer) ∷ (1 ∷ [], peer) ∷ []) [] [] tt cycles tt ((tt, tt), ((tt, tt), tt))

-- A str0m that can parse no offer.
abbrev no_offers : RtcApi media
no_offers = record rtc_api { from_sdp_string = λ body. none }

bad_offer_example :
    process_http
      (server_env media no_offers udp crates)
      ((http_request whip_request, 3, 10) ∷ [])
      (new (server_env media no_offers udp crates) [] [] [] tt)
    ≡ halt unparsed_offer
bad_offer_example =
    bad_offer media no_offers udp crates whip_request (record { ip = 1; port = 4000 }) 3 10 []
      (new (server_env media no_offers udp crates) [] [] [] tt) (inl refl) refl refl

on_http_request_lem_example :
    Ends
      (λ w'. IsRouted env laws w' × (IsSeeded env w' × Keeps env start w'))
      (CycleHalt env)
      (on_http_request env whip_request 3 10 start)
unfolding new
on_http_request_lem_example =
    on_http_request_lem env laws whip_request 3 10 start
      (new-IsRouted env laws ((0 ∷ [], peer) ∷ (1 ∷ [], peer) ∷ []) [] [] tt tt) tt
