-- ===== src/Main/Drain.antt =====
-- src/main.rs: the loop over the workers' actions.
use tiny_media_server.Prelude.{
  ℕ, zero, suc, ◌<◌, ◌≡◌, refl, String, List, none, Outcome, Ends, Ends-bind, Option-cases,
  Bool-cases, inl, inr, arith, nat_key, Ends-weaken,
}
use tiny_media_server.Prelude.Map.{get, remove}
use tiny_media_server.Io.{IoAction, http_response, udp_socket_send}
use tiny_media_server.Tasks.Roles.{Uses}
use tiny_media_server.Controller.{Channels, Controller, pop_action}
use tiny_media_server.Main.Files.{StaticPanic, with_headers-Ends}
use tiny_media_server.Main.{
  TinyHttp, Main, with_headers, cors_headers, reply, on_action, drain_loop, drain,
}

module _ (h : TinyHttp) (ch : Channels) where
  -- The computation comes to an end, and leaves the controller alone.
  abbrev pub KeepsController : Controller ch → Outcome (Main h ch) → Type 0
  KeepsController c = Ends (λ m. m.controller ≡ c) (λ _. Unit)

  with_headers-Halts :
      (hs : List (String × String)) (response : h.Response)
      → Ends (λ _. Unit) (λ _. Unit) (with_headers h hs response)
  with_headers-Halts hs response =
      Ends-weaken (λ _. Unit) (λ _. Unit) StaticPanic (λ _. Unit) (with_headers h hs response)
        (with_headers-Ends h hs response) (λ x k. k) (λ p k. tt)

  reply-KeepsController :
      (request : h.Request) (response : h.Response) (m : Main h ch)
      → KeepsController m.controller (reply h ch request response m)
  unfolding reply
  reply-KeepsController request response m =
      elim (Bool-cases (h.respond request response m.clients).0) [
        | inl sent ↦ rw sent refl
        | inr refused ↦ rw refused tt
      ]

  on_action-KeepsController :
      (a : IoAction) (m : Main h ch) → KeepsController m.controller (on_action h ch a m)
  unfolding on_action
  on_action-KeepsController (udp_socket_send from to buf) m = tt
  on_action-KeepsController (http_response res) m = elim (Option-cases (get res.req_id m.reqs)) [
    | inl missing ↦ rw missing tt
    | inr (request, found) ↦
        let response = h.with_status_code res.status (h.from_data res.body) in
        rw found (
          Ends-bind (λ _. Unit) _ (λ _. Unit) (with_headers h res.headers response) _
            (with_headers-Halts res.headers response)
            λ response' _ _.
              Ends-bind (λ _. Unit) _ (λ _. Unit) (with_headers h (cors_headers h) response') _
                (with_headers-Halts (cors_headers h) response')
                λ response'' _ _.
                  reply-KeepsController request response''
                    (record m { reqs = remove res.req_id m.reqs }))
  ]

  -- The last look into the channel found nothing.
  abbrev pub IsDrained : Main h ch → Type 0
  IsDrained m = (c : Controller ch) × (pop_action ch c ≡ (none, m.controller))

  abbrev pub UsesUp : Type 0
  UsesUp = (r : ch.Receiver) → Uses (ch.try_recv r).0 (ch.waiting r) (ch.waiting (ch.try_recv r).1)

  drain_loop-IsDrained :
      (fuel : ℕ) (m : Main h ch)
      → UsesUp
      → ch.waiting m.controller.worker_recv < fuel
      → Ends IsDrained (λ _. Unit) (drain_loop h ch fuel m)
  unfolding drain_loop pop_action
  drain_loop-IsDrained zero m uses room = absurd (omega (arith, room))
  drain_loop-IsDrained (suc fuel) m uses room =
      let recv = m.controller.worker_recv in
      let popped : Controller ch = record m.controller { worker_recv = (ch.try_recv recv).1 } in
      elim (Option-cases (ch.try_recv recv).0) [
        | inl e ↦ rw (e, drain_loop, Ends) (m.controller, rw e refl)
        | inr (a, e) ↦
            rw (e, drain_loop, Ends)
              (Ends-bind (λ m'. m'.controller ≡ popped) IsDrained (λ _. Unit)
                (on_action h ch a (record m { controller = popped })) (drain_loop h ch fuel)
                (on_action-KeepsController a (record m { controller = popped }))
                λ m' _ k.
                  let less : ch.waiting popped.worker_recv < ch.waiting recv =
                    rw e at (uses recv) in
                  drain_loop-IsDrained fuel m' uses (rw k (omega (arith, less, room))))
      ]

  -- Over a channel of which each action that is received uses up one that waits, the loop over the
  -- workers' actions comes to an end: it panics, or it returns when the channel has nothing more
  -- to give.
  pub drain_lem : (m : Main h ch) → UsesUp → Ends IsDrained (λ _. Unit) (drain h ch m)
  unfolding drain
  drain_lem m uses =
      drain_loop-IsDrained (suc (ch.waiting m.controller.worker_recv)) m uses (omega arith)
