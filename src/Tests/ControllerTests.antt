-- ===== src/Tests/ControllerTests.antt =====
-- The controller over channels that keep what they are sent.
use tiny_media_server.Controller.Fairness.{inputs, IsFair, inputs_lem}
use tiny_media_server.Prelude.{
  ℕ, ◌≡◌, List, [], ◌∷◌, ◌++◌, true, none, Ends, arith, ◌+◌, refl, length, length-append, sum_by,
}
use tiny_media_server.Io.{IoEvent, IoAction, http_request}
use tiny_media_server.Controller.{Channels, Controller, input, IsApplied, input_lem}
use tiny_media_server.Tests.Bench.{whip_request}

abbrev channels : Channels
channels = record {
  Sender = List IoEvent;
  Receiver = List IoAction;
  try_send = λ e s. (true, s ++ e ∷ []);
  try_recv = λ r. (none, r);
  waiting = λ r. 0;
}

-- Two workers, and a third request.
abbrev third : Controller channels
third = record { count = 2; joins = [] ∷ [] ∷ []; worker_recv = [] }

input_lem_example :
    Ends
      (λ c.
        (c.count ≡ 3)
        × ((j : ℕ) → IsApplied (λ s. s ++ http_request whip_request ∷ []) 0 j third.joins c.joins))
      (λ _. ⊥)
      (input channels (http_request whip_request) third)
input_lem_example = input_lem channels whip_request third (omega arith)

-- Two workers that have been given nothing.
abbrev idle : Controller channels
idle = record third { count = 0 }

length-try_send : (e : IoEvent) (s : List IoEvent) → length (s ++ e ∷ []) ≡ length s + 1
length-try_send e s = omega (arith, length-append s (e ∷ []))

inputs_lem_example :
    Ends
      (λ c. IsFair channels length length-try_send c × (sum_by length c.joins ≡ 3))
      (λ _. ⊥)
      (inputs channels length (whip_request ∷ whip_request ∷ whip_request ∷ []) idle)
inputs_lem_example =
    inputs_lem channels length length-try_send (whip_request ∷ whip_request ∷ whip_request ∷ [])
      idle (omega arith) refl (refl, (refl, tt))
