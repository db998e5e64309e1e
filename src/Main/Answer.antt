-- ===== src/Main/Answer.antt =====
-- src/main.rs: what becomes of a worker's answer.
use tiny_media_server.Prelude.{
  ℕ, ◌≡◌, refl, sym, ◌∙◌, String, List, [], ◌∷◌, ◌++◌, none, some, Outcome, ok, ◌>>=◌, >>=-eq-ok,
  Ends, Halt, refused_response, Bool-cases, Option-cases, inl, inr, nat_key, nat_beq, if◌then◌else◌,
}
use tiny_media_server.Prelude.Map.{get, get-remove}
use tiny_media_server.Io.{HttpResponse, http_response}
use tiny_media_server.Controller.{Channels}
use tiny_media_server.Main.{
  TinyHttp, Main, with_header, with_headers, cors_headers, reply, on_action,
}

abbrev pub IsRefused : Halt → Type 0
IsRefused refused_response = Unit
IsRefused _ = ⊥

with_headers-append :
    (h : TinyHttp) (hs ks : List (String × String)) (response : h.Response)
    → with_headers h (hs ++ ks) response ≡ (with_headers h hs response >>= with_headers h ks)
unfolding with_headers with_header
with_headers-append h [] ks response = refl
with_headers-append h ((k, v) ∷ hs) ks response = elim (Option-cases (h.from_bytes k v)) [
  | inl bad ↦ rw bad refl
  | inr (header, good) ↦ rw good (with_headers-append h hs ks (h.add_header header response))
]

module _ (h : TinyHttp) (ch : Channels) where
  -- The answer as the client gets it.
  abbrev pub answer_of : HttpResponse → Outcome h.Response
  answer_of res =
      with_headers h (res.headers ++ cors_headers h)
        (h.with_status_code res.status (h.from_data res.body))

  -- `request` was given `response`, and is no longer open.
  abbrev pub Answered : h.Request → h.Response → ℕ → Main h ch → Main h ch → Type 0
  Answered request response id m m' =
      (m'.clients ≡ (h.respond request response m.clients).1)
      × ((j : ℕ) → get j m'.reqs ≡ (if nat_beq id j then none else get j m.reqs))
      × (m'.req_id ≡ m.req_id)
      × (m'.controller ≡ m.controller)

  -- If the request that a worker's answer names is open, and the answer's headers and the four of
  -- CORS are valid, then on_action responds to that request, and to no other client, with the
  -- answer's status, body and headers and the four of CORS behind them, takes that request alone
  -- out of the table, and leaves the next request id and the controller as they are; it panics
  -- only if the client's connection refuses the response.
  pub on_action_lem :
      (res : HttpResponse) (request : h.Request) (response : h.Response) (m : Main h ch)
      → get res.req_id m.reqs ≡ some request
      → answer_of res ≡ ok response
      → Ends
          (Answered request response res.req_id m)
          IsRefused
          (on_action h ch (http_response res) m)
  unfolding on_action reply
  on_action_lem res request response m found built =
      let start = h.with_status_code res.status (h.from_data res.body) in
      let (middle, first, second) =
        >>=-eq-ok (with_headers h res.headers start) (with_headers h (cors_headers h))
          (sym (with_headers-append h res.headers (cors_headers h) start) ∙ built) in
      elim (Bool-cases (h.respond request response m.clients).0) [
        | inl sent ↦
            rw (found, first, second, sent) (refl, λ j. get-remove res.req_id j m.reqs, refl, refl)
        | inr refused ↦ rw (found, first, second, refused) tt
      ]
