-- ===== src/Io.antt =====
-- src/io.rs: what the controller and the workers exchange. Bytes are numbers below 256, `u64` and
-- `u16` values are numbers.
use tiny_media_server.Prelude.{ℕ, String, List}
use tiny_media_server.Prelude.Map.{Map}
use tiny_media_server.Prelude.SocketAddr.{SocketAddr}

pub record HttpRequest : Type 0 where
  pub req_id : ℕ
  pub method : String
  pub path : String
  pub headers : Map String String
  pub body : List ℕ

pub record HttpResponse : Type 0 where
  pub req_id : ℕ
  pub status : ℕ
  pub headers : Map String String
  pub body : List ℕ

pub data IoEvent : Type 0 where
  http_request : HttpRequest → IoEvent
  -- from, to, buf
  udp_socket_recv : SocketAddr → SocketAddr → List ℕ → IoEvent

pub data IoAction : Type 0 where
  http_response : HttpResponse → IoAction
  -- from, to, buf
  udp_socket_send : SocketAddr → SocketAddr → List ℕ → IoAction
