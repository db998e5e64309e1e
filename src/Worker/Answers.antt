-- ===== src/Worker/Answers.antt =====
-- Which HTTP requests a worker answers: what a task still has to answer, and what has been put, or
-- tried to be put, on the channel to the controller.
pub mod Inbox
pub mod Cycle
use tiny_media_server.Tasks.Session.{expect}
use mathlib.Core.List.{append-nil, append_assoc}
use tiny_media_server.Prelude.{
  ℕ, zero, suc, ◌≡◌, refl, sym, ap, ◌∙◌, List, [], ◌∷◌, ◌++◌, All, Option, none, some, Outcome, ok,
  halt, Yields, Yields-any, Yields-bind, Yields-weaken, Option-cases, inl, inr, nat_key, full_bus,
}
use tiny_media_server.Prelude.SocketAddr.{SocketAddr}
use tiny_media_server.Prelude.Map.{Map}
use tiny_media_server.Io.{HttpRequest, IoAction, http_response, udp_socket_send, HttpResponse}
use tiny_media_server.Tasks.{WebrtcTaskInput, WebrtcTaskOutput}
use tiny_media_server.Tasks.Answers.{answered, answers}
use tiny_media_server.Worker.State.{
  Env, TaskContainer, Shared, Worker, track_media, track_keyframe_request,
}
use tiny_media_server.Worker.PopTask.{handle_action, pop_loop, pop_task, pop_all}

-- `owes` lists the requests that a task has still to answer. `attempted` lists the responses that
-- the channel was given, in order, those that it refused included.
pub record AnswerLaws (E : Env) : Type 0 where
  pub owes : E.task.Task → List ℕ
  pub attempted : E.ExtSender → List ℕ
  pub tick-owes : (now : ℕ) (t : E.task.Task) → owes (E.task.tick now t).1 ≡ owes t
  pub input-owes :
      (now : ℕ) (i : WebrtcTaskInput E.media) (t : E.task.Task)
      → Yields (λ s. owes s.1 ≡ owes t) (E.task.input now i t)
  pub pop-owes :
      (now : ℕ) (t : E.task.Task)
      → owes t ≡ answers E.media (E.task.pop_action now t).0 ++ owes (E.task.pop_action now t).1
  pub pop_last :
      (now : ℕ) (t : E.task.Task)
      → (E.task.pop_action now t).0 ≡ none
      → owes (E.task.pop_action now t).1 ≡ []
  pub new_whip-owes :
      (cert : E.DtlsCert) (req : HttpRequest) (addrs : List SocketAddr) (entropy : ℕ)
      → Yields (λ t. owes t ≡ req.req_id ∷ []) (E.new_whip cert req addrs entropy)
  pub new_whep-owes :
      (cert : E.DtlsCert) (req : HttpRequest) (addrs : List SocketAddr) (entropy : ℕ)
      → Yields (λ t. owes t ≡ req.req_id ∷ []) (E.new_whep cert req addrs entropy)
  pub try_send-attempted :
      (res : HttpResponse) (s : E.ExtSender)
      → attempted (E.try_send (http_response res) s).1 ≡ attempted s ++ res.req_id ∷ []
  pub send-attempted :
      (res : HttpResponse) (s s' : E.ExtSender)
      → E.send (http_response res) s ≡ some (some s')
      → attempted s' ≡ attempted s ++ res.req_id ∷ []

module _ (E : Env) (laws : AnswerLaws E) where
  open laws use {owes, attempted}

  -- `ids` were answered after what had been before.
  abbrev pub Attempts : List ℕ → Shared E → Shared E → Type 0
  Attempts ids s s' = attempted s'.ext_send ≡ attempted s.ext_send ++ ids

  handle_action-attempted :
      (task_id : ℕ) (o : WebrtcTaskOutput E.media) (c : TaskContainer E) (s : Shared E)
      → Yields
          (λ r. Attempts (answers E.media (some o)) s r.1 × (r.0.task ≡ c.task))
          (handle_action E task_id o c s)
  unfolding handle_action
  handle_action-attempted task_id (WebrtcTaskOutput.io (udp_socket_send from to buf)) c s =
      Yields-bind (λ _. Unit) _ (E.udp.add_send_to buf to s.udp_socket) _
        (Yields-any (E.udp.add_send_to buf to s.udp_socket)) λ r _. (sym (append-nil _), refl)
  handle_action-attempted task_id (WebrtcTaskOutput.io (http_response res)) c s =
      (laws.try_send-attempted res s.ext_send, refl)
  handle_action-attempted task_id (WebrtcTaskOutput.track_media media) c s =
      Yields-bind (λ _. Unit) _ (expect full_bus (E.broadcast (track_media media) s.bus_send)) _
        (Yields-any _) λ bus _. (sym (append-nil _), refl)
  handle_action-attempted task_id (WebrtcTaskOutput.request_keyframe_track t k) c s =
      Yields-bind (λ _. Unit) _
        (expect full_bus (E.broadcast (track_keyframe_request t k) s.bus_send)) _ (Yields-any _)
        λ bus _. (sym (append-nil _), refl)
  handle_action-attempted task_id WebrtcTaskOutput.task_ended c s = (sym (append-nil _), refl)
  handle_action-attempted task_id (WebrtcTaskOutput.publish_track t) c s =
      (sym (append-nil _), refl)
  handle_action-attempted task_id (WebrtcTaskOutput.subscribe_track t) c s =
      (sym (append-nil _), refl)

  -- What the call attempted is what its task owed; the task owes nothing more.
  abbrev pub Answered : TaskContainer E → Shared E → TaskContainer E × Shared E → Type 0
  Answered c s r = Attempts (owes c.task) s r.1 × (owes r.0.task ≡ [])

  pop_loop-Answered :
      (fuel now task_id : ℕ) (c : TaskContainer E) (s : Shared E)
      → Yields (Answered c s) (pop_loop E fuel now task_id c s)
  unfolding pop_loop
  pop_loop-Answered zero now task_id c s = tt
  pop_loop-Answered (suc fuel) now task_id c s =
      let pop = laws.pop-owes now c.task in
      let t : E.task.Task = (E.task.pop_action now c.task).1 in
      let next : TaskContainer E = record c { task = t } in
      elim (Option-cases (E.task.pop_action now c.task).0) [
        | inl e ↦
            let last = laws.pop_last now c.task e in
            let none_owed : owes c.task ≡ [] = pop ∙ (rw (e, last) refl) in
            rw (e, pop_loop, Yields) (rw none_owed (sym (append-nil _)), last)
        | inr (o, e) ↦
            let owed : owes c.task ≡ answers E.media (some o) ++ owes t = rw e at pop in
            rw (e, pop_loop, Yields)
              (Yields-bind (λ r. Attempts (answers E.media (some o)) s r.1 × (r.0.task ≡ t))
                (Answered c s) (handle_action E task_id o next s) _
                (handle_action-attempted task_id o next s)
                λ (c', s') (done, same).
                  Yields-weaken (Answered c' s') (Answered c s) _
                    (pop_loop-Answered fuel now task_id c' s')
                    λ r (q, quiet). (simp (q, done, same, owed, append_assoc), quiet))
      ]

  pub pop_task-Answered :
      (now task_id : ℕ) (c : TaskContainer E) (s : Shared E)
      → Yields (Answered c s) (pop_task E now task_id c s)
  unfolding pop_task
  pop_task-Answered now task_id c s = pop_loop-Answered _ now task_id c s

  -- No task owes an answer.
  abbrev pub IsQuiet : ℕ × TaskContainer E → Type 0
  IsQuiet (task_id, c) = owes c.task ≡ []

  pub pop_all-attempted :
      (now : ℕ) (tasks : Map ℕ (TaskContainer E)) (s : Shared E)
      → All IsQuiet tasks
      → Yields (λ r. All IsQuiet r.0 × Attempts [] s r.1) (pop_all E now tasks s)
  unfolding pop_all
  pop_all-attempted now [] s h = (tt, sym (append-nil _))
  pop_all-attempted now ((task_id, c) ∷ tasks) s h =
      Yields-bind (Answered c s) _ (pop_task E now task_id c s) _
        (pop_task-Answered now task_id c s)
        λ (c', s') (done, quiet).
          Yields-bind (λ r. All IsQuiet r.0 × Attempts [] s' r.1) _ (pop_all E now tasks s') _
            (pop_all-attempted now tasks s' h.1)
            λ (tasks', s'') (quiets, q). ((quiet, quiets), simp (q, done, h.0, append-nil))
