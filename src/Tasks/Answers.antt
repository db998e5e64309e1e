-- ===== src/Tasks/Answers.antt =====
-- The HTTP requests that a task answers.
use tiny_media_server.Prelude.{ℕ, List, [], ◌∷◌, ◌++◌, Option, some}
use tiny_media_server.Io.{IoAction, http_response, udp_socket_send}
use tiny_media_server.Tasks.{WebrtcTaskOutput}
use tiny_media_server.Tasks.Str0m.{Media}

abbrev pub answered : IoAction → List ℕ
answered (http_response res) = res.req_id ∷ []
answered (udp_socket_send from to buf) = []

module _ (m : Media) where
  -- What a `pop_action` answers.
  abbrev pub answers : Option (WebrtcTaskOutput m) → List ℕ
  answers (some (WebrtcTaskOutput.io a)) = answered a
  answers _ = []

  -- What the outputs that wait will answer.
  abbrev pub owed : List (WebrtcTaskOutput m) → List ℕ
  owed [] = []
  owed (o ∷ os) = answers (some o) ++ owed os
