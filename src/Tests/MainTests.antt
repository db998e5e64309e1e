-- ===== src/Tests/MainTests.antt =====
-- The main loop at work.
use tiny_media_server.Prelude.Map.{get}
use tiny_media_server.Main.Answer.{Answered, IsRefused, on_action_lem}
use tiny_media_server.Main.Drain.{IsDrained, drain_lem}
use tiny_media_server.Prelude.{
  ℕ, ◌≡◌, refl, String, List, [], ◌∷◌, Option, none, some, ok, halt, missing_file, Ends, inl, arith,
}
use tiny_media_server.Io.{HttpRequest, HttpResponse, http_response}
use tiny_media_server.Controller.{pop_action}
use tiny_media_server.Main.{
  Main, round, rounds, forward, drain, drain_loop, on_action, with_headers, with_header,
  cors_headers,
}
use tiny_media_server.Main.Files.{StaticPanic, Untouched, static_round, rounds_missing}
use tiny_media_server.Main.Table.{Forwarded, forward_lem}
use tiny_media_server.System.{channels}
use tiny_media_server.Tests.SystemBench.{http, parts, next-Uses, Reply}
use tiny_media_server.Tests.Bench.{whip_request}

-- Two workers, and request 4 comes next; request 3 waits for its answer.
abbrev main : Main http (channels parts)
main = record {
  req_id = 4;
  reqs = (3, whip_request) ∷ [];
  controller = record { count = 3; joins = ([], []) ∷ ([], []) ∷ []; worker_recv = ([], []) };
  clients = [];
}

abbrev page : HttpRequest
page = record whip_request { method = "GET"; path = "/public/whip.html" }

abbrev files : String → Option (List ℕ)
files path = some (7 ∷ [])

abbrev no_files : String → Option (List ℕ)
no_files path = none

static_round_example :
    Ends
      (Untouched http (channels parts) main)
      StaticPanic
      (round http (channels parts) (some page) files main)
static_round_example = static_round http (channels parts) page files main (inl refl)

idle : rounds http (channels parts) ((none, files) ∷ []) main ≡ ok main
unfolding rounds round drain drain_loop pop_action
idle = refl

rounds_missing_example :
    rounds http (channels parts) ((none, files) ∷ (some page, no_files) ∷ []) main
    ≡ halt missing_file
rounds_missing_example =
    rounds_missing http (channels parts) ((none, files) ∷ []) [] page no_files main main idle refl
      refl

forward_lem_example :
    Ends
      (Forwarded http (channels parts) whip_request (5 ∷ []) 1 main)
      (λ _. ⊥)
      (forward http (channels parts) whip_request main)
forward_lem_example =
    forward_lem http (channels parts) whip_request (5 ∷ []) 1 main (omega arith) refl

drain_lem_example :
    Ends (IsDrained http (channels parts)) (λ _. Unit) (drain http (channels parts) main)
drain_lem_example = drain_lem http (channels parts) main (λ r. next-Uses r)

abbrev answer : HttpResponse
answer = record { req_id = 3; status = 201; headers = ("Location", "/whip/3") ∷ []; body = [] }

abbrev answered_reply : Reply
answered_reply = record { status = 201; headers = ("Location", "/whip/3") ∷ cors_headers http }

on_action_lem_example :
    Ends
      (Answered http (channels parts) whip_request answered_reply 3 main)
      IsRefused
      (on_action http (channels parts) (http_response answer) main)
unfolding with_headers with_header get
on_action_lem_example =
    on_action_lem http (channels parts) answer whip_request answered_reply main refl refl
