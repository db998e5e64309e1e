-- ===== src/Server/Offers.antt =====
-- What an offer that str0m cannot parse does to a worker.
use tiny_media_server.Prelude.{
  ℕ, ◌≡◌, refl, List, ◌∷◌, true, some, none, halt, unparsed_offer, ◌==◌, string_key, Bool-cases,
  inl, inr, ◌⊎◌,
}
use tiny_media_server.Io.{HttpRequest, IoEvent, http_request}
use tiny_media_server.Net.{UdpSocketGeneric}
use tiny_media_server.Tasks.Str0m.{Media}
use tiny_media_server.Tasks.Rtc.{RtcApi}
use tiny_media_server.Tasks.Session.{add_local_candidates}
use tiny_media_server.Tasks.Whip
use tiny_media_server.Tasks.Whep
use tiny_media_server.Worker.State.{Worker}
use tiny_media_server.Worker.Inbox.{on_http_request, process_http}
use tiny_media_server.Server.{Crates, server_env, new_whip, new_whep}

module _ (m : Media) (r : RtcApi m) (u : UdpSocketGeneric) (c : Crates m) where
  -- If a request to /whip/endpoint or /whep/endpoint has a body that str0m cannot parse as an
  -- offer, and the candidate of the worker's socket is taken, process_http panics, whatever
  -- requests come after it.
  pub bad_offer :
      (req : HttpRequest) (candidate : r.Candidate) (entropy now : ℕ) (es : List (IoEvent × ℕ × ℕ))
      (w : Worker (server_env m r u c))
      → ((req.path == "/whip/endpoint") ≡ true) ⊎ ((req.path == "/whep/endpoint") ≡ true)
      → r.from_sdp_string req.body ≡ none
      → r.host (u.local_addr w.udp_socket) ≡ some candidate
      → process_http (server_env m r u c) ((http_request req, entropy, now) ∷ es) w
        ≡ halt unparsed_offer
  unfolding process_http on_http_request new_whip new_whep Whip.new Whep.new add_local_candidates
  bad_offer req candidate entropy now es w (inl whip) bad taken = rw (whip, taken, bad) refl
  bad_offer req candidate entropy now es w (inr whep) bad taken =
      elim (Bool-cases (req.path == "/whip/endpoint")) [
        | inl whip ↦ rw (whip, taken, bad) refl
        | inr other ↦ rw (other, whep, taken, bad) refl
      ]
