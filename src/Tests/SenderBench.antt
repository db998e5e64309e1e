-- ===== src/Tests/SenderBench.antt =====
-- The laws of the channel of Bench to the controller.
use mathlib.Core.List.{append_assoc, append-nil}
use tiny_media_server.Prelude.{ℕ, ◌≡◌, List, [], ◌∷◌, ◌++◌, some, some_injective}
use tiny_media_server.Io.{IoAction, http_response}
use tiny_media_server.Tasks.Answers.{answered}
use tiny_media_server.Server.Answers.{ExtSenderLaws}
use tiny_media_server.Tests.Bench.{media, crates}

abbrev pub attempted : List IoAction → List ℕ
attempted [] = []
attempted (a ∷ as_) = answered a ++ attempted as_

pub attempted-append :
    (a : IoAction) (s : List IoAction) → attempted (s ++ a ∷ []) ≡ attempted s ++ answered a
attempted-append a [] = append-nil (answered a)
attempted-append a (b ∷ s) = simp (attempted-append a s, append_assoc)

pub send-attempted :
    (a : IoAction) (s s' : List IoAction)
    → some (some (s ++ a ∷ [])) ≡ some (some s')
    → attempted s' ≡ attempted s ++ answered a
send-attempted a s s' e = rw (← some_injective (some_injective e)) (attempted-append a s)

abbrev pub sender_laws : ExtSenderLaws media crates
sender_laws = record {
  attempted = attempted;
  try_send-attempted = λ res. attempted-append (http_response res);
  send-attempted = λ res. send-attempted (http_response res);
}
