-- ===== src/Main.antt =====
-- src/main.rs: the loop of the main thread. tiny_http, the files and clap are parameters; the loop
-- runs for ever, and is given here what each of its rounds finds.
pub mod Files
pub mod Table
pub mod Drain
pub mod Answer
use Prim.Native.String
use text.Mathlib.Text.{starts_with}
use tiny_media_server.Prelude.{
  ℕ, zero, suc, ◌+◌, String, List, [], ◌∷◌, Bool, true, false, ◌||◌, Option, none, some, Outcome,
  ok, halt, out_of_fuel, ◌>>=◌, missing_request, missing_file, unreadable_body, bad_header,
  refused_response, unexpected_event, nat_key, string_key, ◌==◌, if◌then◌else◌,
}
use tiny_media_server.Prelude.Map.{Map, get, insert, remove}
use tiny_media_server.Io.{
  HttpRequest, HttpResponse, IoEvent, http_request, IoAction, http_response, udp_socket_send,
}
use tiny_media_server.Tasks.Session.{expect}
use tiny_media_server.Controller.{Channels, Controller, input, pop_action}

-- tiny_http. `body` is `none` if a read fails, `from_bytes` if the bytes are no header; `respond`
-- answers whether the response could be written to the client's connection.
pub record TinyHttp : Type 1 where
  pub Request : Type 0
  pub url : Request → String
  pub is_options : Request → Bool
  pub method : Request → String
  pub headers : Request → List (String × String)
  pub body : Request → Option (List ℕ)
  pub Header : Type 0
  pub from_bytes : String → String → Option Header
  pub Response : Type 0
  pub from_file : List ℕ → Response
  pub from_data : List ℕ → Response
  pub from_string : String → Response
  pub with_status_code : ℕ → Response → Response
  pub add_header : Header → Response → Response
  pub Clients : Type 0
  pub respond : Request → Response → Clients → Bool × Clients

unfoldable pub ends_with : String → String → Bool
ends_with String.[] suffix = String.[] == suffix
ends_with (String.◌∷◌ c s) suffix = String.◌∷◌ c s == suffix || ends_with s suffix

-- headers().iter().map(..).collect(): of two headers of one name the later counts.
unfoldable pub collect : List (String × String) → Map String String → Map String String
collect [] m = m
collect ((k, v) ∷ hs) m = collect hs (insert k v m)

module _ (h : TinyHttp) where
  open h use {Request, Response, Header, from_bytes, add_header}

  -- `add_header(Header::from_bytes(..).unwrap())`
  unfoldable pub with_header : String → String → Response → Outcome Response
  with_header k v response = do
    header ← expect bad_header (from_bytes k v)
    ok (add_header header response)

  unfoldable pub with_headers : List (String × String) → Response → Outcome Response
  unfolding with_header
  with_headers [] response = ok response
  with_headers ((k, v) ∷ hs) response = do
    response' ← with_header k v response
    with_headers hs response'

  -- The four headers that every answer but a file gets.
  abbrev pub cors_headers : List (String × String)
  cors_headers =
      ("Access-Control-Allow-Origin", "*")
      ∷ ("Access-Control-Allow-Methods", "GET, POST, PATCH, DELETE, OPTIONS")
      ∷ ("Access-Control-Allow-Headers", "*")
      ∷ ("Access-Control-Allow-Credentials", "true")
      ∷ []

  -- The content type of a file by its name.
  unfoldable pub with_content_type : String → Response → Outcome Response
  unfolding with_header ends_with
  with_content_type url response =
      if ends_with url ".js"
      then with_header "Content-Type" "application/javascript" response
      else if ends_with url ".css"
      then with_header "Content-Type" "text/css" response
      else ok response

module _ (h : TinyHttp) (ch : Channels) where
  open h use {Request, Response, Clients}

  -- The variables of `main`, and the clients' connections.
  pub record Main : Type 0 where
    pub req_id : ℕ
    pub reqs : Map ℕ Request
    pub controller : Controller ch
    pub clients : Clients

  -- `request.respond(response)` and the `expect` or `unwrap` behind it.
  unfoldable pub reply : Request → Response → Main → Outcome Main
  reply request response m =
      let (sent, clients) = h.respond request response m.clients in
      if sent then ok (record m { clients = clients }) else halt refused_response

  -- `files` is the file system, from the directory that the program runs in.
  unfoldable pub serve_public : (String → Option (List ℕ)) → Request → Main → Outcome Main
  unfolding with_content_type reply
  serve_public files request m = do
    file ← expect missing_file (files (String.◌++◌ "." (h.url request)))
    response ← with_content_type h (h.url request) (h.from_file file)
    reply request response m

  unfoldable pub serve_options : Request → Main → Outcome Main
  unfolding with_headers reply
  serve_options request m = do
    response ← with_headers h (cors_headers h) (h.from_string "OK")
    reply request response m

  -- The request goes to a worker and waits in the table for its answer.
  unfoldable pub forward : Request → Main → Outcome Main
  unfolding collect
  forward request m = do
    body ← expect unreadable_body (h.body request)
    let event = http_request (record {
      req_id = m.req_id;
      method = h.method request;
      path = h.url request;
      headers = collect (h.headers request) [];
      body = body;
    })
    controller ← input ch event m.controller
    ok (record m {
      controller = controller;
      reqs = insert m.req_id request m.reqs;
      req_id = m.req_id + 1;
    })

  -- The body of `while let Some(action) = controller.pop_action()`.
  unfoldable pub on_action : IoAction → Main → Outcome Main
  unfolding with_headers reply
  on_action (http_response res) m = do
    request ← expect missing_request (get res.req_id m.reqs)
    let response = h.with_status_code res.status (h.from_data res.body)
    response' ← with_headers h res.headers response
    response'' ← with_headers h (cors_headers h) response'
    reply request response'' (record m { reqs = remove res.req_id m.reqs })
  on_action (udp_socket_send from to buf) m = halt unexpected_event

  unfoldable pub drain_loop : ℕ → Main → Outcome Main
  drain_loop zero m = out_of_fuel
  drain_loop (suc fuel) m =
      let (action, controller) = pop_action ch m.controller in
      elim action [
        | none ↦ ok (record m { controller = controller })
        | some a ↦ do m' ← on_action a (record m { controller = controller }); drain_loop fuel m'
      ]

  -- The fuel is one round more than there are actions in the channel.
  unfoldable pub drain : Main → Outcome Main
  drain m = drain_loop (suc (ch.waiting m.controller.worker_recv)) m

  -- One round of the loop: what recv_timeout gave, and the files. The `continue` after a file and
  -- after OPTIONS skips the actions.
  unfoldable pub round : Option Request → (String → Option (List ℕ)) → Main → Outcome Main
  round none files m = drain m
  round (some request) files m =
      if starts_with (h.url request) "/public"
      then serve_public files request m
      else if h.is_options request
      then serve_options request m
      else (forward request m >>= drain)

  -- `loop`, as long as it is given what its rounds find.
  unfoldable pub rounds : List (Option Request × (String → Option (List ℕ))) → Main → Outcome Main
  rounds [] m = ok m
  rounds ((request, files) ∷ rs) m = do m' ← round request files m; rounds rs m'
