-- ===== src/Worker/Ids.antt =====
-- The ids of the worker's tasks, in src/worker.rs: each below the seed of the next one.
use tiny_media_server.Prelude.{
  ℕ, ◌+◌, ◌<◌, ◌≡◌, ◌∙◌, [], ◌∷◌, All, none, some, Outcome, ◌>>=◌, Yields, Yields-any, Yields-bind,
  Option-cases, Bool-cases, inl, inr, nat_key, string_key, ◌==◌, arith, nat_beq, false,
}
use tiny_media_server.Prelude.Map.{Map, get, get-insert, All-get, All-insert}
use tiny_media_server.Io.{HttpRequest, http_response}
use tiny_media_server.Worker.State.{Env, TaskContainer, container_from, Worker}
use tiny_media_server.Worker.PopTask.{pop_task}
use tiny_media_server.Worker.Inbox.{not_found, start_task, on_http_request}

module _ (E : Env) where
  abbrev pub IsBelow : ℕ → ℕ × TaskContainer E → Type 0
  IsBelow n (task_id, c) = task_id < n

  abbrev pub IsSeeded : Worker E → Type 0
  IsSeeded w = All (IsBelow w.task_id_seed) w.tasks

  -- The tasks of `w` are tasks of `w'`, as they were.
  abbrev pub Keeps : Worker E → Worker E → Type 0
  Keeps w w' = (j : ℕ) (c : TaskContainer E) → get j w.tasks ≡ some c → get j w'.tasks ≡ some c

  IsBelow-weaken :
      (n : ℕ) (tasks : Map ℕ (TaskContainer E))
      → All (IsBelow n) tasks
      → All (IsBelow (n + 1)) tasks
  IsBelow-weaken n [] h = tt
  IsBelow-weaken n (t ∷ tasks) h = (omega (arith, h.0), IsBelow-weaken n tasks h.1)

  -- A task under the id that is the seed displaces none.
  start_task-Keeps :
      (now : ℕ) (t : E.task.Task) (w : Worker E)
      → IsSeeded w
      → Yields
          (λ w'. IsSeeded w' × Keeps w w')
          (start_task E now w.task_id_seed t (record w { task_id_seed = w.task_id_seed + 1 }))
  unfolding start_task
  start_task-Keeps now t w h =
      Yields-bind (λ _. Unit) _ (pop_task E now w.task_id_seed (container_from E t) w.shared) _
        (Yields-any (pop_task E now w.task_id_seed (container_from E t) w.shared))
        λ (c, s) _. (
          All-insert (IsBelow (w.task_id_seed + 1)) w.task_id_seed c w.tasks (omega arith)
              (IsBelow-weaken w.task_id_seed w.tasks h),
          λ j c' there.
              let below : j < w.task_id_seed =
                All-get (IsBelow w.task_id_seed) j w.tasks c' h there in
              let other : nat_beq w.task_id_seed j ≡ false = ground (arith, below) in
              get-insert w.task_id_seed j c w.tasks ∙ (rw other there),
        )

  admit-Keeps :
      (now : ℕ) (r : Outcome E.task.Task) (w : Worker E)
      → IsSeeded w
      → Yields
          (λ w'. IsSeeded w' × Keeps w w')
          (r >>= λ t.
            start_task E now w.task_id_seed t (record w { task_id_seed = w.task_id_seed + 1 }))
  admit-Keeps now r w h =
      Yields-bind (λ _. Unit) (λ w'. IsSeeded w' × Keeps w w') r _ (Yields-any r)
        λ t _. start_task-Keeps now t w h

  pub on_http_request-Keeps :
      (req : HttpRequest) (entropy now : ℕ) (w : Worker E)
      → IsSeeded w
      → Yields (λ w'. IsSeeded w' × Keeps w w') (on_http_request E req entropy now w)
  unfolding on_http_request
  on_http_request-Keeps req entropy now w h =
      let addrs = E.udp.local_addr w.udp_socket ∷ [] in
      elim (Bool-cases (req.path == "/whip/endpoint")) [
        | inl whip ↦
            rw (whip, on_http_request, Yields)
              (admit-Keeps now (E.new_whip w.dtls_cert req addrs entropy) w h)
        | inr other ↦ elim (Bool-cases (req.path == "/whep/endpoint")) [
          | inl whep ↦
              rw (other, whep, on_http_request, Yields)
                (admit-Keeps now (E.new_whep w.dtls_cert req addrs entropy) w h)
          | inr none_ ↦ elim (Option-cases (E.send (http_response (not_found req)) w.ext_send)) [
            | inl full ↦ rw (other, none_, full, on_http_request, Yields) tt
            | inr (none, sent) ↦ rw (other, none_, sent, on_http_request, Yields) tt
            | inr (some ext, sent) ↦
                rw (other, none_, sent, on_http_request, Yields) (h, λ j c there. there)
          ]
        ]
      ]
