-- ===== src/Worker/Answers/Inbox.antt =====
-- The three ways in of src/worker.rs, and `pop_tasks`: which requests they answer.
use mathlib.Core.List.{append-nil, append_assoc}
use tiny_media_server.Prelude.{
  ℕ, suc, ◌+◌, ◌≡◌, sym, ◌∙◌, List, [], ◌∷◌, ◌++◌, map, All, Outcome, ◌>>=◌, Yields, Yields-bind,
  Yields-weaken, Option-cases, Bool-cases, inl, inr, nat_key, string_key, ◌==◌, none, some,
}
use tiny_media_server.Prelude.Map.{Map, get, All-get, All-insert}
use tiny_media_server.Io.{HttpRequest, IoEvent, http_request, udp_socket_recv, http_response}
use tiny_media_server.Tasks.{WebrtcTaskInput}
use tiny_media_server.Worker.State.{
  Env, BusEvent, track_media, track_keyframe_request, TaskContainer, container_from, Shared, Worker,
}
use tiny_media_server.Worker.PopTask.{pop_task, pop_all}
use tiny_media_server.Worker.Inbox.{
  not_found, give, deliver, on_bus_event, process_bus_recv, start_task, on_http_request,
  process_http, tick_entry, process_tick, pop_tasks,
}
use tiny_media_server.Worker.Answers.{
  AnswerLaws, Attempts, Answered, IsQuiet, pop_task-Answered, pop_all-attempted,
}

-- The requests among the events, in order.
abbrev pub requested : List (IoEvent × ℕ × ℕ) → List ℕ
requested [] = []
requested ((http_request req, entropy, now) ∷ es) = req.req_id ∷ requested es
requested ((udp_socket_recv from to buf, entropy, now) ∷ es) = requested es

module _ (E : Env) (laws : AnswerLaws E) where
  open laws use {owes, attempted}

  abbrev pub Quiet : Worker E → Type 0
  Quiet w = All (IsQuiet E laws) w.tasks

  -- From a quiet worker, the call attempts answers to `ids` and leaves a quiet worker.
  abbrev pub Answers : List ℕ → Worker E → Worker E → Type 0
  Answers ids w w' = Quiet w' × Attempts E laws ids w.shared w'.shared

  pub Attempts-refl : (s : Shared E) → Attempts E laws [] s s
  Attempts-refl s = sym (append-nil _)

  pub Answers-trans :
      (xs ys : List ℕ) (w w' w'' : Worker E)
      → Answers xs w w'
      → Answers ys w' w''
      → Answers (xs ++ ys) w w''
  Answers-trans xs ys w w' w'' (q, e) (q', e') = (q', simp (e', e, append_assoc))

  give-Quiet :
      (now task_id : ℕ) (i : WebrtcTaskInput E.media) (tasks : Map ℕ (TaskContainer E))
      → All (IsQuiet E laws) tasks
      → Yields (All (IsQuiet E laws)) (give E now task_id i tasks)
  unfolding give
  give-Quiet now task_id i tasks h = elim (Option-cases (get task_id tasks)) [
    | inl e ↦ rw (e, give, Yields) h
    | inr (c, e) ↦
        let quiet : owes c.task ≡ [] = All-get (IsQuiet E laws) task_id tasks c h e in
        rw (e, give, Yields)
          (Yields-bind (λ s. owes s.1 ≡ owes c.task) (All (IsQuiet E laws))
            (E.task.input now i c.task) _ (laws.input-owes now i c.task)
            λ (b, t) same.
              All-insert (IsQuiet E laws) task_id (record c { task = t }) tasks (same ∙ quiet) h)
  ]

  deliver-Quiet :
      (clock : ℕ → ℕ) (n : ℕ) (ids : List ℕ) (i : WebrtcTaskInput E.media)
      (tasks : Map ℕ (TaskContainer E))
      → All (IsQuiet E laws) tasks
      → Yields (All (IsQuiet E laws)) (deliver E clock n ids i tasks)
  unfolding deliver
  deliver-Quiet clock n [] i tasks h = h
  deliver-Quiet clock n (task_id ∷ ids) i tasks h =
      Yields-bind (All (IsQuiet E laws)) (All (IsQuiet E laws)) (give E (clock n) task_id i tasks) _
        (give-Quiet (clock n) task_id i tasks h)
        λ tasks' h'. deliver-Quiet clock (suc n) ids i tasks' h'

  on_bus_event-Quiet :
      (clock : ℕ → ℕ) (e : BusEvent E.media) (w : Worker E)
      → Quiet w
      → Yields (All (IsQuiet E laws)) (on_bus_event E clock e w)
  unfolding on_bus_event
  on_bus_event-Quiet clock (track_media media) w h =
      elim (Option-cases (get media.track_id w.bus_channels)) [
        | inl e ↦ rw (e, on_bus_event, Yields) h
        | inr (c, e) ↦ rw (e, on_bus_event, Yields) (deliver-Quiet clock 0 c.consumers _ w.tasks h)
      ]
  on_bus_event-Quiet clock (track_keyframe_request track_id kind) w h =
      elim (Option-cases (get track_id w.bus_channels)) [
        | inl e ↦ rw (e, on_bus_event, Yields) h
        | inr (c, e) ↦ rw (e, on_bus_event, Yields) (deliver-Quiet clock 0 c.sources _ w.tasks h)
      ]

  pub process_bus_recv-Answers :
      (es : List (BusEvent E.media × (ℕ → ℕ))) (w : Worker E)
      → Quiet w
      → Yields (Answers [] w) (process_bus_recv E es w)
  unfolding process_bus_recv
  process_bus_recv-Answers [] w h = (h, Attempts-refl w.shared)
  process_bus_recv-Answers ((e, clock) ∷ es) w h =
      Yields-bind (All (IsQuiet E laws)) (Answers [] w) (on_bus_event E clock e w) _
        (on_bus_event-Quiet clock e w h)
        λ tasks' h'. process_bus_recv-Answers es (record w { tasks = tasks' }) h'

  start_task-Answers :
      (now task_id : ℕ) (t : E.task.Task) (w : Worker E)
      → Quiet w
      → Yields (Answers (owes t) w) (start_task E now task_id t w)
  unfolding start_task container_from
  start_task-Answers now task_id t w h =
      Yields-bind (Answered E laws (container_from E t) w.shared) (Answers (owes t) w)
        (pop_task E now task_id (container_from E t) w.shared) _
        (pop_task-Answered E laws now task_id (container_from E t) w.shared)
        λ (c, s) (done, quiet). (All-insert (IsQuiet E laws) task_id c w.tasks quiet h, done)

  admit-Answers :
      (ids : List ℕ) (now task_id : ℕ) (r : Outcome E.task.Task) (w : Worker E)
      → Yields (λ t. owes t ≡ ids) r
      → Quiet w
      → Yields (Answers ids w) (r >>= λ t. start_task E now task_id t w)
  admit-Answers ids now task_id r w made h =
      Yields-bind (λ t. owes t ≡ ids) (Answers ids w) r _ made
        λ t e.
          Yields-weaken (Answers (owes t) w) (Answers ids w) _
            (start_task-Answers now task_id t w h) λ w' (q, done). (q, rw (← e) done)

  on_http_request-Answers :
      (req : HttpRequest) (entropy now : ℕ) (w : Worker E)
      → Quiet w
      → Yields (Answers (req.req_id ∷ []) w) (on_http_request E req entropy now w)
  unfolding on_http_request
  on_http_request-Answers req entropy now w h =
      let next : Worker E = record w { task_id_seed = w.task_id_seed + 1 } in
      let addrs = E.udp.local_addr w.udp_socket ∷ [] in
      elim (Bool-cases (req.path == "/whip/endpoint")) [
        | inl whip ↦
            rw (whip, on_http_request, Yields)
              (admit-Answers (req.req_id ∷ []) now w.task_id_seed _ next
                (laws.new_whip-owes w.dtls_cert req addrs entropy) h)
        | inr other ↦ elim (Bool-cases (req.path == "/whep/endpoint")) [
          | inl whep ↦
              rw (other, whep, on_http_request, Yields)
                (admit-Answers (req.req_id ∷ []) now w.task_id_seed _ next
                  (laws.new_whep-owes w.dtls_cert req addrs entropy) h)
          | inr none_ ↦ elim (Option-cases (E.send (http_response (not_found req)) w.ext_send)) [
            | inl full ↦ rw (other, none_, full, on_http_request, Yields) tt
            | inr (none, sent) ↦ rw (other, none_, sent, on_http_request, Yields) tt
            | inr (some ext, sent) ↦
                rw (other, none_, sent, on_http_request, Yields)
                  (h, laws.send-attempted (not_found req) w.ext_send ext sent)
          ]
        ]
      ]

  pub process_http-Answers :
      (es : List (IoEvent × ℕ × ℕ)) (w : Worker E)
      → Quiet w
      → Yields (Answers (requested es) w) (process_http E es w)
  unfolding process_http
  process_http-Answers [] w h = (h, Attempts-refl w.shared)
  process_http-Answers ((http_request req, entropy, now) ∷ es) w h =
      Yields-bind (Answers (req.req_id ∷ []) w) (Answers (req.req_id ∷ requested es) w)
        (on_http_request E req entropy now w) _ (on_http_request-Answers req entropy now w h)
        λ w' a.
          Yields-weaken (Answers (requested es) w') (Answers (req.req_id ∷ requested es) w) _
            (process_http-Answers es w' a.0)
            λ w'' b. Answers-trans (req.req_id ∷ []) (requested es) w w' w'' a b
  process_http-Answers ((udp_socket_recv from to buf, entropy, now) ∷ es) w h = tt

  map-tick_entry-Quiet :
      (now : ℕ) (tasks : Map ℕ (TaskContainer E))
      → All (IsQuiet E laws) tasks
      → All (IsQuiet E laws) (map (tick_entry E now) tasks)
  unfolding tick_entry
  map-tick_entry-Quiet now [] h = tt
  map-tick_entry-Quiet now ((task_id, c) ∷ tasks) h =
      (laws.tick-owes now c.task ∙ h.0, map-tick_entry-Quiet now tasks h.1)

  pub process_tick-Quiet : (now : ℕ) (w : Worker E) → Quiet w → Quiet (process_tick E now w)
  unfolding process_tick
  process_tick-Quiet now w h = map-tick_entry-Quiet now w.tasks h

  pub pop_tasks-Answers :
      (now : ℕ) (w : Worker E) → Quiet w → Yields (Answers [] w) (pop_tasks E now w)
  unfolding pop_tasks
  pop_tasks-Answers now w h =
      Yields-bind (λ r. All (IsQuiet E laws) r.0 × Attempts E laws [] w.shared r.1) (Answers [] w)
        (pop_all E now w.tasks w.shared) _ (pop_all-attempted E laws now w.tasks w.shared h)
        λ (tasks', s) q. q
