-- ===== src/Main/Table.antt =====
-- The table of open requests, in src/main.rs.
use tiny_media_server.Prelude.{
  ℕ, ◌+◌, ◌<◌, ◌≡◌, refl, List, [], some, Ends, Ends-bind, Halt, unreadable_body, length, ◌%◌,
  nat_key, nat_beq, if◌then◌else◌,
}
use tiny_media_server.Prelude.Map.{get, get-insert}
use tiny_media_server.Io.{HttpRequest, http_request}
use tiny_media_server.Controller.{Channels, input, IsApplied, input_lem}
use tiny_media_server.Main.{TinyHttp, Main, collect, forward}

abbrev pub UnreadBody : Halt → Type 0
UnreadBody unreadable_body = Unit
UnreadBody _ = ⊥

module _ (h : TinyHttp) (ch : Channels) where
  -- The request as a worker gets it.
  abbrev pub as_event : h.Request → ℕ → List ℕ → HttpRequest
  as_event request id body = record {
    req_id = id;
    method = h.method request;
    path = h.url request;
    headers = collect (h.headers request) [];
    body = body;
  }

  -- What became of the worker's channel `j` and of the table.
  abbrev pub Forwarded : h.Request → List ℕ → ℕ → Main h ch → Main h ch → Type 0
  Forwarded request body j m m' =
      (m'.req_id ≡ m.req_id + 1)
      × (get j m'.reqs ≡ (if nat_beq m.req_id j then some request else get j m.reqs))
      × IsApplied (λ s. (ch.try_send (http_request (as_event request m.req_id body)) s).1)
          (m.controller.count % length m.controller.joins) j m.controller.joins m'.controller.joins

  -- If there is a worker and the body can be read, forward does not panic: the next request id
  -- grows by one, the request alone is added to the table, under the id that it was given, and its
  -- event is put on the channel of the worker that the controller's count names and on no other.
  pub forward_lem :
      (request : h.Request) (body : List ℕ) (j : ℕ) (m : Main h ch)
      → 0 < length m.controller.joins
      → h.body request ≡ some body
      → Ends (Forwarded request body j m) (λ _. ⊥) (forward h ch request m)
  unfolding forward
  forward_lem request body j m workers read = rw read (
      Ends-bind _ (Forwarded request body j m) (λ _. ⊥)
        (input ch (http_request (as_event request m.req_id body)) m.controller) _
        (input_lem ch (as_event request m.req_id body) m.controller workers)
        λ c _ k. (refl, get-insert m.req_id j request m.reqs, k.1 j))
