-- ===== src/Worker/Invariant/Http.antt =====
-- `process_http` keeps the invariant: a new task gets a fresh id, and so a role of its own.
use tiny_media_server.Prelude.{
  ℕ, ◌+◌, ◌<◌, ◌≡◌, ◌∙◌, List, [], ◌∷◌, All, All-weaken, Outcome, ok, Ends, Ends-bind, Ends-weaken,
  Bool-cases, inl, inr, arith, nat_key, ◌==◌, if◌then◌else◌, disconnected_channel, string_key,
  ◌>>=◌, full_channel,
}
use tiny_media_server.Prelude.Map.{Map, All-insert}
use tiny_media_server.Io.{HttpRequest, IoEvent, http_response, http_request, udp_socket_recv}
use tiny_media_server.Tasks.Session.Laws.{NewPanic, expect-Ends, expect-Ends-none}
use tiny_media_server.Tasks.Session.{expect}
use tiny_media_server.Tasks.Roles.{Role, source, consumer}
use tiny_media_server.Worker.State.{Env, BusChannelContainer, TaskContainer, container_from, Worker}
use tiny_media_server.Worker.PopTask.{pop_task}
use tiny_media_server.Worker.Inbox.{not_found, start_task, on_http_request, process_http}
use tiny_media_server.Worker.Invariant.{
  EnvLaws, IsKind, ChannelFits, ChannelsFit, TaskFits, TasksFit, Fits, IsRouted, CycleHalt,
  PopHalt-CycleHalt, NewPanic-CycleHalt, PopHalt,
}
use tiny_media_server.Worker.Invariant.PopTask.{Popped, pop_task-Ends}

-- The roles with one more task.
abbrev with_role : (ℕ → Role) → ℕ → Role → ℕ → Role
with_role role seed k i = if i == seed then k else role i

with_role_below :
    (role : ℕ → Role) (seed : ℕ) (k : Role) (i : ℕ) → i < seed → with_role role seed k i ≡ role i
with_role_below role seed k i h = ground arith

with_role_self : (role : ℕ → Role) (seed : ℕ) (k : Role) → with_role role seed k seed ≡ k
with_role_self role seed k = ground arith

IsKind-grow :
    (role : ℕ → Role) (seed : ℕ) (k j : Role) (i : ℕ)
    → IsKind role seed j i
    → IsKind (with_role role seed k) (seed + 1) j i
IsKind-grow role seed k j i h = (with_role_below role seed k i h.1 ∙ h.0, omega arith)

ChannelsFit-grow :
    (role : ℕ → Role) (seed : ℕ) (k : Role) (channels : Map ℕ BusChannelContainer)
    → ChannelsFit role seed channels
    → ChannelsFit (with_role role seed k) (seed + 1) channels
ChannelsFit-grow role seed k channels h =
    All-weaken (ChannelFits role seed) channels
      (λ (t, c) p. (
        All-weaken (IsKind role seed source) c.sources (IsKind-grow role seed k source) p.0,
        All-weaken (IsKind role seed consumer) c.consumers (IsKind-grow role seed k consumer) p.1,
      ))
      h

-- The controller sends nothing but HTTP requests.
abbrev pub IsHttp : IoEvent × ℕ × ℕ → Type 0
IsHttp (http_request req, entropy, now) = Unit
IsHttp (udp_socket_recv from to buf, entropy, now) = ⊥

module _ (E : Env) (laws : EnvLaws E) where
  TasksFit-grow :
      (role : ℕ → Role) (seed : ℕ) (k : Role) (tasks : Map ℕ (TaskContainer E))
      → TasksFit E laws role seed tasks
      → TasksFit E laws (with_role role seed k) (seed + 1) tasks
  TasksFit-grow role seed k tasks h =
      All-weaken (TaskFits E laws role seed) tasks
        (λ (i, c) p. (rw (with_role_below role seed k i p.1) p.0, omega arith)) h

  -- The worker as it stands once the seed has been raised, for a task of role `k`.
  start_task-Ends :
      (role : ℕ → Role) (k : Role) (now : ℕ) (t : E.task.Task) (w : Worker E)
      → Fits E laws role w
      → laws.tasks.Plays k t
      → Ends
          (IsRouted E laws)
          (PopHalt E)
          (start_task E now w.task_id_seed t (record w { task_id_seed = w.task_id_seed + 1 }))
  unfolding start_task
  start_task-Ends role k now t w h plays =
      let seed = w.task_id_seed in
      let role' = with_role role seed k in
      let plays' : laws.tasks.Plays (role' seed) t = rw (with_role_self role seed k) plays in
      Ends-bind (Popped E laws role' (seed + 1) seed (container_from E t) w.shared)
        (IsRouted E laws) (PopHalt E) (pop_task E now seed (container_from E t) w.shared) _
        (pop_task-Ends E laws role' (seed + 1) now seed (container_from E t) w.shared (omega arith)
          plays' (ChannelsFit-grow role seed k w.bus_channels h.channels_fit) h.holds)
        λ (c, s) _ d. record {
          role = role';
          fits = record {
            tasks_fit =
                All-insert (TaskFits E laws role' (seed + 1)) seed c w.tasks (d.plays, omega arith)
                  (TasksFit-grow role seed k w.tasks h.tasks_fit);
            channels_fit = d.channels_fit;
            holds = d.holds;
          };
        }

  admit-Ends :
      (k : Role) (r : Outcome E.task.Task) (now : ℕ) (w : Worker E)
      → IsRouted E laws w
      → Ends (laws.tasks.Plays k) NewPanic r
      → Ends (IsRouted E laws) (CycleHalt E) (
          r >>= λ t.
          start_task E now w.task_id_seed t (record w { task_id_seed = w.task_id_seed + 1 }))
  admit-Ends k r now w h made =
      Ends-bind (laws.tasks.Plays k) (IsRouted E laws) (CycleHalt E) r _
        (Ends-weaken _ (laws.tasks.Plays k) NewPanic (CycleHalt E) r made (λ t p. p)
          (NewPanic-CycleHalt E))
        λ t _ plays.
          Ends-weaken (IsRouted E laws) (IsRouted E laws) (PopHalt E) (CycleHalt E) _
            (start_task-Ends h.role k now t w h.fits plays) (λ w' p. p) (PopHalt-CycleHalt E)

  pub on_http_request-Ends :
      (req : HttpRequest) (entropy now : ℕ) (w : Worker E)
      → IsRouted E laws w
      → Ends (IsRouted E laws) (CycleHalt E) (on_http_request E req entropy now w)
  unfolding on_http_request
  on_http_request-Ends req entropy now w h = elim (Bool-cases (req.path == "/whip/endpoint")) [
    | inl whip ↦
        rw (whip, on_http_request, Ends)
          (admit-Ends source _ now w h (laws.new_whip-Ends w.dtls_cert req _ entropy))
    | inr other ↦ elim (Bool-cases (req.path == "/whep/endpoint")) [
      | inl whep ↦
          rw (other, whep, on_http_request, Ends)
            (admit-Ends consumer _ now w h (laws.new_whep-Ends w.dtls_cert req _ entropy))
      | inr none_ ↦
          rw (other, none_, on_http_request, Ends)
            (Ends-bind (λ _. Unit) (IsRouted E laws) (CycleHalt E)
              (expect full_channel (E.send (http_response (not_found req)) w.ext_send)) _
              (expect-Ends-none full_channel (CycleHalt E)
                (E.send (http_response (not_found req)) w.ext_send)
                λ full. (http_response (not_found req), w.ext_send, full))
              λ sent _ _.
                Ends-bind (λ _. Unit) (IsRouted E laws) (CycleHalt E)
                  (expect disconnected_channel sent)
                  (λ ext. ok (record w { shared = record w.shared { ext_send = ext } }))
                  (expect-Ends disconnected_channel (CycleHalt E) sent tt)
                  λ ext _ _. record {
                    role = h.role;
                    fits = record {
                      tasks_fit = h.fits.tasks_fit;
                      channels_fit = h.fits.channels_fit;
                      holds = h.fits.holds;
                    };
                  })
    ]
  ]

  pub process_http-Ends :
      (es : List (IoEvent × ℕ × ℕ)) (w : Worker E)
      → All IsHttp es
      → IsRouted E laws w
      → Ends (IsRouted E laws) (CycleHalt E) (process_http E es w)
  unfolding process_http
  process_http-Ends [] w http h = h
  process_http-Ends ((http_request req, entropy, now) ∷ es) w http h =
      Ends-bind (IsRouted E laws) (IsRouted E laws) (CycleHalt E)
        (on_http_request E req entropy now w) _ (on_http_request-Ends req entropy now w h)
        λ w' _ h'. process_http-Ends es w' http.1 h'
  process_http-Ends ((udp_socket_recv from to buf, entropy, now) ∷ es) w http h = absurd http.0
