-- ===== src/Http.antt =====
-- src/http.rs: the channel of a request is its authorization header.
use tiny_media_server.Prelude.{String, none, some, string_key}
use tiny_media_server.Prelude.Map.{get}
use tiny_media_server.Io.{HttpRequest}

unfoldable pub get_http_auth : HttpRequest → String
get_http_auth req = elim (get "Authorization" req.headers) [
  | some auth ↦ auth
  | none ↦ elim (get "authorization" req.headers) [ some auth ↦ auth | none ↦ "demo" ]
]
