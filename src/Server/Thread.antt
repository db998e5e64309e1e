-- ===== src/Server/Thread.antt =====
-- The thread of a worker, which src/controller.rs spawns: from the opening of its socket to any number
-- of cycles.
use tiny_media_server.Prelude.{
  List, All, Outcome, ◌>>=◌, Halt, Ends, Ends-bind, Ends-weaken, ◌⊎◌, inl, inr, ok, Yields,
  Yields-bind, Yields-any, Yields-weaken, Ends-Yields, ap, ◌∙◌, ◌≡◌, ◌++◌, refl,
}
use tiny_media_server.Net.Opening.{OpenPanic}
use tiny_media_server.Worker.State.{Env, Worker}
use tiny_media_server.Worker.State
use tiny_media_server.Worker.Cycle.{Arrivals, prepare}
use tiny_media_server.Worker.Invariant.{EnvLaws, IsRouted, CycleHalt}
use tiny_media_server.Worker.Invariant.Http.{IsHttp}
use tiny_media_server.Worker.Invariant.Cycle.{new-IsRouted, prepare-IsRouted}
use tiny_media_server.Worker.Answers.{AnswerLaws}
use tiny_media_server.Worker.Answers.Inbox.{Quiet, Answers}
use tiny_media_server.Server.Answers.{all_requested, run-Answers}
use tiny_media_server.Server.{run, run-Ends}

-- What a thread may halt at.
abbrev pub ThreadHalt : Env → Halt → Type 0
ThreadHalt E p = OpenPanic p ⊎ CycleHalt E p

module _ (E : Env) where
  -- Worker::new, around the opening of the socket.
  unfoldable pub new_worker :
      Outcome E.udp.Socket → E.ExtSender → E.Bus → E.DtlsCert → Outcome (Worker E)
  unfolding State.new
  new_worker opening ext bus cert = do
    udp_socket ← opening
    ok (State.new E udp_socket ext bus cert)

  -- The closure that is given to thread::spawn.
  unfoldable pub thread :
      Outcome E.udp.Socket
      → E.ExtSender
      → E.Bus
      → E.DtlsCert
      → List (Arrivals E)
      → Outcome (Worker E)
  unfolding new_worker
  thread opening ext bus cert cycles = do
    worker ← new_worker opening ext bus cert
    prepared ← prepare E worker
    run E cycles prepared

  pub thread-Ends :
      (laws : EnvLaws E) (opening : Outcome E.udp.Socket) (ext : E.ExtSender) (bus : E.Bus)
      (cert : E.DtlsCert) (cycles : List (Arrivals E))
      → Ends laws.udp.Holds OpenPanic opening
      → All (λ (a : Arrivals E). All IsHttp a.http_events) cycles
      → Ends (IsRouted E laws) (ThreadHalt E) (thread opening ext bus cert cycles)
  unfolding thread new_worker
  thread-Ends laws opening ext bus cert cycles opens http =
      let Good = IsRouted E laws in
      Ends-bind Good Good (ThreadHalt E) (new_worker opening ext bus cert) _
        (Ends-bind laws.udp.Holds Good (ThreadHalt E) opening _
          (Ends-weaken laws.udp.Holds laws.udp.Holds OpenPanic (ThreadHalt E) opening opens
            (λ s h. h) (λ p q. inl q))
          λ socket _ up. new-IsRouted E laws socket ext bus cert up)
        λ worker _ h.
          Ends-weaken Good Good (CycleHalt E) (ThreadHalt E) (prepare E worker >>= run E cycles)
            (Ends-bind Good Good (CycleHalt E) (prepare E worker) (run E cycles)
              (prepare-IsRouted E laws worker h)
              λ prepared _ k. run-Ends E laws cycles prepared http k)
            (λ w k. k) (λ p q. inr q)

  pub thread-Answers :
      (laws : AnswerLaws E) (opening : Outcome E.udp.Socket) (ext : E.ExtSender) (bus : E.Bus)
      (cert : E.DtlsCert) (cycles : List (Arrivals E))
      → Yields
          (λ w. laws.attempted w.ext_send ≡ laws.attempted ext ++ all_requested E cycles)
          (thread opening ext bus cert cycles)
  unfolding thread new_worker prepare State.new
  thread-Answers laws opening ext bus cert cycles =
      let answered = λ (w : Worker E).
        laws.attempted w.ext_send ≡ laws.attempted ext ++ all_requested E cycles in
      let waits = λ (w : Worker E). Quiet E laws w × (w.ext_send ≡ ext) in
      Yields-bind waits answered (new_worker opening ext bus cert) _
        (Yields-bind (λ _. Unit) waits opening _ (Yields-any opening) λ socket _. (tt, refl))
        λ worker (quiet, same).
          Yields-bind waits answered (prepare E worker) (run E cycles)
            (Yields-bind (λ _. Unit) waits (E.udp.prepare worker.udp_socket) _
              (Yields-any (E.udp.prepare worker.udp_socket)) λ socket _. (quiet, same))
            λ prepared (quiet', same').
              Yields-weaken (Answers E laws (all_requested E cycles) prepared) answered
                (run E cycles prepared) (run-Answers E laws cycles prepared quiet')
                λ w done. done.1 ∙ ap (λ e. laws.attempted e ++ all_requested E cycles) same'

  -- Both of what is shown of a thread.
  abbrev pub IsServed :
      EnvLaws E → AnswerLaws E → E.ExtSender → List (Arrivals E) → Worker E → Type 0
  IsServed laws answers ext cycles w =
      IsRouted E laws w
      × (answers.attempted w.ext_send ≡ answers.attempted ext ++ all_requested E cycles)

  pub thread-IsServed :
      (laws : EnvLaws E) (answers : AnswerLaws E) (opening : Outcome E.udp.Socket)
      (ext : E.ExtSender) (bus : E.Bus) (cert : E.DtlsCert) (cycles : List (Arrivals E))
      → Ends laws.udp.Holds OpenPanic opening
      → All (λ (a : Arrivals E). All IsHttp a.http_events) cycles
      → Ends (IsServed laws answers ext cycles) (ThreadHalt E) (thread opening ext bus cert cycles)
  thread-IsServed laws answers opening ext bus cert cycles opens http =
      Ends-Yields (IsRouted E laws)
        (λ w. answers.attempted w.ext_send ≡ answers.attempted ext ++ all_requested E cycles)
        (ThreadHalt E) (thread opening ext bus cert cycles)
        (thread-Ends laws opening ext bus cert cycles opens http)
        (thread-Answers answers opening ext bus cert cycles)
