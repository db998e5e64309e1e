-- ===== src/Main/Files.antt =====
-- Requests that the main loop serves by itself: files under /public, and OPTIONS.
use Prim.Native.String
use text.Mathlib.Text.{starts_with}
use tiny_media_server.Prelude.{
  ℕ, ◌≡◌, refl, String, List, [], ◌∷◌, ◌++◌, true, Option, none, some, ok, halt, >>=-eq-ok,
  missing_file, bad_header, refused_response, Halt, Ends, Ends-bind, Bool-cases, Option-cases, inl,
  inr, ◌⊎◌, arith,
}
use tiny_media_server.Controller.{Channels}
use tiny_media_server.Main.{
  TinyHttp, Main, with_header, with_headers, with_content_type, cors_headers, reply, serve_public,
  serve_options, round, rounds,
}

abbrev pub StaticPanic : Halt → Type 0
StaticPanic missing_file = Unit
StaticPanic bad_header = Unit
StaticPanic refused_response = Unit
StaticPanic _ = ⊥

module _ (h : TinyHttp) where
  pub with_headers-Ends :
      (hs : List (String × String)) (response : h.Response)
      → Ends (λ _. Unit) StaticPanic (with_headers h hs response)
  unfolding with_headers with_header
  with_headers-Ends [] response = tt
  with_headers-Ends ((k, v) ∷ hs) response = elim (Option-cases (h.from_bytes k v)) [
    | inl bad ↦ rw bad tt
    | inr (header, good) ↦ rw good (with_headers-Ends hs (h.add_header header response))
  ]

  with_content_type-Ends :
      (url : String) (response : h.Response)
      → Ends (λ _. Unit) StaticPanic (with_content_type h url response)
  unfolding with_content_type with_header
  with_content_type-Ends url response = ground arith

module _ (h : TinyHttp) (ch : Channels) where
  -- The loop's variables are as they were.
  abbrev pub Untouched : Main h ch → Main h ch → Type 0
  Untouched m m' = (m'.req_id ≡ m.req_id) × (m'.reqs ≡ m.reqs) × (m'.controller ≡ m.controller)

  reply-Untouched :
      (request : h.Request) (response : h.Response) (m : Main h ch)
      → Ends (Untouched m) StaticPanic (reply h ch request response m)
  unfolding reply
  reply-Untouched request response m = elim (Bool-cases (h.respond request response m.clients).0) [
    | inl sent ↦ rw sent (refl, refl, refl)
    | inr refused ↦ rw refused tt
  ]

  serve_public-Untouched :
      (files : String → Option (List ℕ)) (request : h.Request) (m : Main h ch)
      → Ends (Untouched m) StaticPanic (serve_public h ch files request m)
  unfolding serve_public
  serve_public-Untouched files request m =
      elim (Option-cases (files (String.◌++◌ "." (h.url request)))) [
        | inl missing ↦ rw missing tt
        | inr (file, found) ↦ rw found (
            Ends-bind (λ _. Unit) (Untouched m) StaticPanic
              (with_content_type h (h.url request) (h.from_file file)) _
              (with_content_type-Ends h (h.url request) (h.from_file file))
              λ response _ _. reply-Untouched request response m)
      ]

  serve_options-Untouched :
      (request : h.Request) (m : Main h ch)
      → Ends (Untouched m) StaticPanic (serve_options h ch request m)
  unfolding serve_options
  serve_options-Untouched request m =
      Ends-bind (λ _. Unit) (Untouched m) StaticPanic
        (with_headers h (cors_headers h) (h.from_string "OK")) _
        (with_headers-Ends h (cors_headers h) (h.from_string "OK"))
        λ response _ _. reply-Untouched request response m

  -- A round that finds a request for a path under /public, or an OPTIONS request, leaves the next
  -- request id, the table of open requests and the controller as they were, or ends in a panic of
  -- StaticPanic.
  pub static_round :
      (request : h.Request) (files : String → Option (List ℕ)) (m : Main h ch)
      → (starts_with (h.url request) "/public" ≡ true) ⊎ (h.is_options request ≡ true)
      → Ends (Untouched m) StaticPanic (round h ch (some request) files m)
  unfolding round
  static_round request files m (inl public) = rw public (serve_public-Untouched files request m)
  static_round request files m (inr options) =
      elim (Bool-cases (starts_with (h.url request) "/public")) [
        | inl public ↦ rw public (serve_public-Untouched files request m)
        | inr other ↦ rw (other, options) (serve_options-Untouched request m)
      ]

  -- After any rounds that return, a request for a path under /public at which there is no file
  -- panics the main loop, whatever would come after it.
  pub rounds_missing :
      (rs more : List (Option h.Request × (String → Option (List ℕ)))) (request : h.Request)
      (files : String → Option (List ℕ)) (m m' : Main h ch)
      → rounds h ch rs m ≡ ok m'
      → starts_with (h.url request) "/public" ≡ true
      → files (String.◌++◌ "." (h.url request)) ≡ none
      → rounds h ch (rs ++ (some request, files) ∷ more) m ≡ halt missing_file
  unfolding rounds round serve_public
  rounds_missing [] more request files m m' done public missing = rw (public, missing)
  rounds_missing ((r, fs) ∷ rs) more request files m m' done public missing =
      let (m₁, first, rest) = >>=-eq-ok (round h ch r fs m) (rounds h ch rs) done in
      rw first (rounds_missing rs more request files m₁ m' rest public missing)
