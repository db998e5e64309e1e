-- ===== src/Server/Answers.antt =====
-- The requests that the server's worker answers.
use tiny_media_server.Prelude.{
  ℕ, ◌≡◌, List, [], ◌∷◌, ◌++◌, All, some, none, Ends, Ends-Yields, Yields, Yields-bind,
  Yields-weaken,
}
use tiny_media_server.Prelude.SocketAddr.{SocketAddr}
use tiny_media_server.Io.{HttpRequest, HttpResponse, http_response}
use tiny_media_server.Net.{UdpSocketGeneric, UdpLaws}
use tiny_media_server.Tasks.{WebrtcTaskInput}
use tiny_media_server.Tasks.Str0m.{Media}
use tiny_media_server.Tasks.Rtc.{RtcApi, RtcLaws}
use tiny_media_server.Tasks.Answers.{answers, owed}
use tiny_media_server.Tasks.Whip
use tiny_media_server.Tasks.Whep
use tiny_media_server.Tasks.Compose.{ComposeTask, whip, whep, tick, input, pop_action}
use tiny_media_server.Worker.State.{Env, Worker, new}
use tiny_media_server.Worker.Cycle.{Arrivals, process_cycle}
use tiny_media_server.Worker.Invariant.{IsRouted, CycleHalt}
use tiny_media_server.Worker.Invariant.Http.{IsHttp}
use tiny_media_server.Worker.Answers.{AnswerLaws}
use tiny_media_server.Worker.Answers.Inbox.{requested, Quiet, Answers, Attempts-refl, Answers-trans}
use tiny_media_server.Worker.Answers.Cycle.{process_cycle-Answers}
use tiny_media_server.Server.{Crates, server_env, server_laws, new_whip, new_whep, run, server_runs}

-- `attempted` is what a channel was given, in order; a channel that is full refuses an action, but
-- it was given it.
pub record ExtSenderLaws (m : Media) (c : Crates m) : Type 0 where
  pub attempted : c.ExtSender → List ℕ
  pub try_send-attempted :
      (res : HttpResponse) (s : c.ExtSender)
      → attempted (c.try_send (http_response res) s).1 ≡ attempted s ++ res.req_id ∷ []
  pub send-attempted :
      (res : HttpResponse) (s s' : c.ExtSender)
      → c.send (http_response res) s ≡ some (some s')
      → attempted s' ≡ attempted s ++ res.req_id ∷ []

module _ (m : Media) (r : RtcApi m) where
  abbrev pub compose_owes : ComposeTask m r → List ℕ
  compose_owes (whip t) = owed m t.outputs
  compose_owes (whep t) = owed m t.outputs

  pub tick-owes : (now : ℕ) (t : ComposeTask m r) → compose_owes (tick m r now t).1 ≡ compose_owes t
  unfolding tick
  tick-owes now (whip t) = rw (Whip.Laws.tick_keeps m r now t).0
  tick-owes now (whep t) = rw (Whep.Laws.tick_keeps m r now t).0

  pub input-owes :
      (now : ℕ) (i : WebrtcTaskInput m) (t : ComposeTask m r)
      → Yields (λ s. compose_owes s.1 ≡ compose_owes t) (input m r now i t)
  unfolding input
  input-owes now i (whip t) =
      Yields-bind (λ s. s.1.outputs ≡ t.outputs) _ (Whip.input m r now i t) _
        (Whip.Answers.input-outputs m r now i t) λ s e. rw e
  input-owes now i (whep t) =
      Yields-bind (λ s. s.1.outputs ≡ t.outputs) _ (Whep.input m r now i t) _
        (Whep.Answers.input-outputs m r now i t) λ s e. rw e

  pub pop-owes :
      (now : ℕ) (t : ComposeTask m r)
      → compose_owes t ≡ answers m (pop_action m r now t).0 ++ compose_owes (pop_action m r now t).1
  unfolding pop_action
  pop-owes now (whip t) = Whip.Answers.pop-owed m r now t
  pop-owes now (whep t) = Whep.Answers.pop-owed m r now t

  pub pop_last :
      (now : ℕ) (t : ComposeTask m r)
      → (pop_action m r now t).0 ≡ none
      → compose_owes (pop_action m r now t).1 ≡ []
  unfolding pop_action
  pop_last now (whip t) e = Whip.Answers.pop_last m r now t e
  pop_last now (whep t) e = Whep.Answers.pop_last m r now t e

module _ (m : Media) (r : RtcApi m) (u : UdpSocketGeneric) (c : Crates m) where
  pub new_whip-owes :
      (cert : r.DtlsCert) (req : HttpRequest) (addrs : List SocketAddr) (entropy : ℕ)
      → Yields (λ t. compose_owes m r t ≡ req.req_id ∷ []) (new_whip m r u c cert req addrs entropy)
  unfolding new_whip
  new_whip-owes cert req addrs entropy =
      Yields-bind (λ t. owed m t.outputs ≡ req.req_id ∷ []) _ (Whip.new m r cert req addrs entropy)
        _ (Whip.Answers.new-owed m r cert req addrs entropy) λ t e. e

  pub new_whep-owes :
      (cert : r.DtlsCert) (req : HttpRequest) (addrs : List SocketAddr) (entropy : ℕ)
      → Yields (λ t. compose_owes m r t ≡ req.req_id ∷ []) (new_whep m r u c cert req addrs entropy)
  unfolding new_whep
  new_whep-owes cert req addrs entropy =
      Yields-bind (λ t. owed m t.outputs ≡ req.req_id ∷ []) _ (Whep.new m r cert req addrs entropy)
        _ (Whep.Answers.new-owed m r cert req addrs entropy) λ t e. e

  abbrev pub answer_laws : ExtSenderLaws m c → AnswerLaws (server_env m r u c)
  answer_laws ch = record {
    owes = compose_owes m r;
    attempted = ch.attempted;
    tick-owes = tick-owes m r;
    input-owes = input-owes m r;
    pop-owes = pop-owes m r;
    pop_last = pop_last m r;
    new_whip-owes = new_whip-owes;
    new_whep-owes = new_whep-owes;
    try_send-attempted = ch.try_send-attempted;
    send-attempted = ch.send-attempted;
  }

module _ (E : Env) where
  -- The requests of all the cycles.
  abbrev pub all_requested : List (Arrivals E) → List ℕ
  all_requested [] = []
  all_requested (a ∷ as_) = requested a.http_events ++ all_requested as_

module _ (E : Env) (laws : AnswerLaws E) where
  pub run-Answers :
      (cycles : List (Arrivals E)) (w : Worker E)
      → Quiet E laws w
      → Yields (Answers E laws (all_requested E cycles) w) (run E cycles w)
  unfolding run
  run-Answers [] w h = (h, Attempts-refl E laws w.shared)
  run-Answers (a ∷ as_) w h =
      let ids = requested a.http_events in
      Yields-bind (Answers E laws ids w) (Answers E laws (ids ++ all_requested E as_) w)
        (process_cycle E a w) _ (process_cycle-Answers E laws a w h)
        λ w' x.
          Yields-weaken (Answers E laws (all_requested E as_) w') _ (run E as_ w')
            (run-Answers as_ w' x.0)
            λ w'' y. Answers-trans E laws ids (all_requested E as_) w w' w'' x y

-- A fresh worker of the server, over any str0m whose sessions run dry and any socket that meets
-- the trait's laws, in a state that these laws are about, given HTTP requests for any number of
-- cycles, comes to the end of the last cycle, unless it halts as CycleHalt lists: in a panic, or,
-- if the bus or the channel to the controller can lack room, in a wait for it that does not end;
-- it has then tried to send the controller one response for each request that it was given, in the
-- requests' order, and no other.
pub requests_answered :
    (m : Media) (r : RtcApi m) (u : UdpSocketGeneric) (c : Crates m) (rtc : RtcLaws r)
    (udp : UdpLaws u) (ch : ExtSenderLaws m c) (socket : u.Socket) (ext : c.ExtSender) (bus : c.Bus)
    (cert : r.DtlsCert) (cycles : List (Arrivals (server_env m r u c)))
    → udp.Holds socket
    → All (λ (a : Arrivals (server_env m r u c)). All IsHttp a.http_events) cycles
    → Ends
        (λ w.
          IsRouted (server_env m r u c) (server_laws m r u c rtc udp) w
          × (ch.attempted w.ext_send
              ≡ ch.attempted ext ++ all_requested (server_env m r u c) cycles))
        (CycleHalt (server_env m r u c))
        (run (server_env m r u c) cycles (new (server_env m r u c) socket ext bus cert))
unfolding new
requests_answered m r u c rtc udp ch socket ext bus cert cycles up http =
    let E = server_env m r u c in
    Ends-Yields _ _ (CycleHalt E) (run E cycles (new E socket ext bus cert))
      (server_runs m r u c rtc udp socket ext bus cert cycles up http)
      (Yields-weaken (Answers E (answer_laws m r u c ch) _ (new E socket ext bus cert)) _ _
        (run-Answers E (answer_laws m r u c ch) cycles (new E socket ext bus cert) tt) λ w a. a.1)
