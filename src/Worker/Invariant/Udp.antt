-- ===== src/Worker/Invariant/Udp.antt =====
-- `process_udp` comes to an end and keeps the invariant.
use tiny_media_server.Prelude.{
  ℕ, Bool, ◌>>=◌, zero, suc, ◌<◌, ◌≤◌, ◌≡◌, refl, String, List, Option, none, some, Outcome, ok,
  Ends, Ends-bind, Ends-weaken, Option-cases, inl, inr, nat_key, string_key, unparsed_stun, arith,
}
use tiny_media_server.Prelude.SocketAddr.{SocketAddr, addr_key}
use tiny_media_server.Prelude.Map.{get, insert, All-get, All-insert}
use tiny_media_server.Io.{udp_socket_recv}
use tiny_media_server.Net.{SocketPanic}
use tiny_media_server.Tasks.{WebrtcTaskInput}
use tiny_media_server.Tasks.Session.{expect}
use tiny_media_server.Tasks.Session.Laws.{expect-Ends}
use tiny_media_server.Tasks.Roles.{Role, source, consumer, Takes, Uses, InputPanic}
use tiny_media_server.Tasks.Str0m.{Media}
use tiny_media_server.Worker.State.{Env, TaskContainer, Worker}
use tiny_media_server.Worker.PopTask.{pop_task}
use tiny_media_server.Worker.Udp.{
  get_stun_username, map_remote, match_username, find_slot, feed, on_datagram, udp_loop,
  process_udp,
}
use tiny_media_server.Worker.Invariant.{
  EnvLaws, TaskFits, Fits, CycleHalt, InputPanic-CycleHalt, SocketPanic-CycleHalt, PopHalt,
  PopHalt-CycleHalt,
}
use tiny_media_server.Worker.Invariant.PopTask.{Popped, pop_task-Ends}

datagram-Takes :
    (m : Media) (k : Role) (from to : SocketAddr) (buf : List ℕ)
    → Takes m k (WebrtcTaskInput.io (udp_socket_recv from to buf))
datagram-Takes m source from to buf = tt
datagram-Takes m consumer from to buf = tt

module _ (E : Env) (laws : EnvLaws E) (role : ℕ → Role) where
  -- The invariant, with what is shared as it was.
  record Found (w : Worker E) (r : Option ℕ × Worker E) : Type 0 where
    fits : Fits E laws role r.1
    same_shared : r.1.shared ≡ w.shared

  map_remote-Found :
      (remote : SocketAddr) (task_id : ℕ) (w : Worker E)
      → Fits E laws role w
      → Found w (map_remote E remote task_id w)
  unfolding map_remote
  map_remote-Found remote task_id w h = elim (Option-cases (get task_id w.tasks)) [
    | inl missing ↦
        rw (missing, map_remote)
          (record {
            fits = record {
              tasks_fit = h.tasks_fit;
              channels_fit = h.channels_fit;
              holds = h.holds;
            };
            same_shared = refl;
          })
    | inr (c, found) ↦
        rw (found, map_remote)
          (record {
            fits = record {
              tasks_fit =
                  All-insert (TaskFits E laws role w.task_id_seed) task_id _ w.tasks
                    (All-get (TaskFits E laws role w.task_id_seed) task_id w.tasks c h.tasks_fit
                      found)
                    h.tasks_fit;
              channels_fit = h.channels_fit;
              holds = h.holds;
            };
            same_shared = refl;
          })
  ]

  match_username-Found :
      (remote : SocketAddr) (username : Option String) (w : Worker E)
      → Fits E laws role w
      → Found w (match_username E remote username w)
  unfolding match_username
  match_username-Found remote none w h = record { fits = h; same_shared = refl }
  match_username-Found remote (some username) w h =
      elim (Option-cases (get username w.task_ufrags)) [
        | inl missing ↦ rw (missing, match_username) (record { fits = h; same_shared = refl })
        | inr (task_id, found) ↦ rw (found, match_username) (map_remote-Found remote task_id w h)
      ]

  find_slot-Ends :
      (buf : List ℕ) (remote : SocketAddr) (w : Worker E)
      → Fits E laws role w
      → Ends (Found w) (CycleHalt E) (find_slot E buf remote w)
  unfolding find_slot get_stun_username
  find_slot-Ends buf remote w h = elim (Option-cases (get remote w.task_remotes)) [
    | inl unknown ↦
        rw (unknown, find_slot, Ends)
          (Ends-bind (λ _. Unit) (Found w) (CycleHalt E) (get_stun_username E buf) _
            (Ends-bind (λ _. Unit) (λ _. Unit) (CycleHalt E) (expect unparsed_stun (E.decode buf)) _
              (expect-Ends unparsed_stun (CycleHalt E) (E.decode buf) tt) λ message _ _. tt)
            λ username _ _. match_username-Found remote username w h)
    | inr (task_id, known) ↦ rw (known, find_slot, Ends) (record { fits = h; same_shared = refl })
  ]

  -- The invariant, and no more datagrams in store than `n`.
  record Fed (n : ℕ) (w : Worker E) : Type 0 where
    fits : Fits E laws role w
    no_more : E.udp.ready w.udp_socket ≤ n

  abbrev datagram : List ℕ → SocketAddr → Worker E → WebrtcTaskInput E.media
  datagram buf remote w = WebrtcTaskInput.io (udp_socket_recv remote w.udp_socket_local_addr buf)

  -- The second half of `feed`: the `pop_task` after the input.
  abbrev popped_into : ℕ → ℕ → TaskContainer E → Worker E → Bool × E.task.Task → Outcome (Worker E)
  popped_into now task_id c w (acts, t) = do
    (c', s) ← pop_task E now task_id (record c { task = t }) w.shared
    ok (record w { shared = s; tasks = insert task_id c' w.tasks })

  popped_into-Ends :
      (now task_id : ℕ) (c : TaskContainer E) (w : Worker E) (s : Bool × E.task.Task)
      → Fits E laws role w
      → task_id < w.task_id_seed
      → laws.tasks.Plays (role task_id) s.1
      → Ends (Fed (E.udp.ready w.udp_socket)) (CycleHalt E) (popped_into now task_id c w s)
  popped_into-Ends now task_id c w (acts, t) h fresh plays =
      Ends-bind (Popped E laws role w.task_id_seed task_id (record c { task = t }) w.shared)
        (Fed (E.udp.ready w.udp_socket)) (CycleHalt E)
        (pop_task E now task_id (record c { task = t }) w.shared) _
        (Ends-weaken _ _ (PopHalt E) (CycleHalt E)
          (pop_task E now task_id (record c { task = t }) w.shared)
          (pop_task-Ends E laws role w.task_id_seed now task_id (record c { task = t }) w.shared
            fresh plays h.channels_fit h.holds)
          (λ s p. p) (PopHalt-CycleHalt E))
        λ (c', s) _ q. record {
          fits = record {
            tasks_fit =
                All-insert (TaskFits E laws role w.task_id_seed) task_id c' w.tasks (q.plays, fresh)
                  h.tasks_fit;
            channels_fit = q.channels_fit;
            holds = q.holds;
          };
          no_more = q.no_more;
        }

  feed-Ends :
      (now : ℕ) (buf : List ℕ) (remote : SocketAddr) (slot : Option ℕ) (w : Worker E)
      → Fits E laws role w
      → Ends (Fed (E.udp.ready w.udp_socket)) (CycleHalt E) (feed E now buf remote slot w)
  unfolding feed
  feed-Ends now buf remote none w h = record { fits = h; no_more = omega arith }
  feed-Ends now buf remote (some task_id) w h = elim (Option-cases (get task_id w.tasks)) [
    | inl missing ↦ rw (missing, feed, Ends) (record { fits = h; no_more = omega arith })
    | inr (c, found) ↦
        let here =
          All-get (TaskFits E laws role w.task_id_seed) task_id w.tasks c h.tasks_fit found in
        rw (found, feed, Ends)
          (Ends-bind (λ s. laws.tasks.Plays (role task_id) s.1) (Fed (E.udp.ready w.udp_socket))
            (CycleHalt E) (E.task.input now (datagram buf remote w) c.task)
            (popped_into now task_id c w)
            (Ends-weaken _ (λ s. laws.tasks.Plays (role task_id) s.1) InputPanic (CycleHalt E)
              (E.task.input now (datagram buf remote w) c.task)
              (laws.tasks.input-Ends (role task_id) now (datagram buf remote w) c.task here.0
                (datagram-Takes E.media (role task_id) remote w.udp_socket_local_addr buf))
              (λ s p. p.0) (InputPanic-CycleHalt E))
            λ s _ d. popped_into-Ends now task_id c w s h here.1 d)
  ]

  on_datagram-Ends :
      (now : ℕ) (buf : List ℕ) (remote : SocketAddr) (w : Worker E)
      → Fits E laws role w
      → Ends (Fed (E.udp.ready w.udp_socket)) (CycleHalt E) (on_datagram E now buf remote w)
  unfolding on_datagram
  on_datagram-Ends now buf remote w h =
      Ends-bind (Found w) (Fed (E.udp.ready w.udp_socket)) (CycleHalt E) (find_slot E buf remote w)
        _ (find_slot-Ends buf remote w h)
        λ (slot, w') _ d.
          Ends-weaken _ (Fed (E.udp.ready w.udp_socket)) (CycleHalt E) (CycleHalt E) _
            (feed-Ends now buf remote slot w' d.fits)
            (λ w'' q. record { fits = q.fits; no_more = rw (← d.same_shared) q.no_more }) (λ p q. q)

  udp_loop-Ends :
      (fuel : ℕ) (clock : ℕ → ℕ) (n : ℕ) (w : Worker E)
      → E.udp.ready w.udp_socket < fuel
      → Fits E laws role w
      → Ends (Fits E laws role) (CycleHalt E) (udp_loop E fuel clock n w)
  unfolding udp_loop
  udp_loop-Ends zero clock n w room h = absurd (omega arith)
  udp_loop-Ends (suc fuel) clock n w room h =
      Ends-bind (λ x. laws.udp.Holds x.1 × Uses x.0 (E.udp.ready w.udp_socket) (E.udp.ready x.1))
        (Fits E laws role) (CycleHalt E) (E.udp.recv_from w.udp_socket) _
        (Ends-weaken
          (λ x. laws.udp.Holds x.1 × Uses x.0 (E.udp.ready w.udp_socket) (E.udp.ready x.1)) _
          SocketPanic (CycleHalt E) (E.udp.recv_from w.udp_socket)
          (laws.udp.recv-Ends w.udp_socket h.holds) (λ s p. p) (SocketPanic-CycleHalt E))
        λ a _ (up, uses). elim (Option-cases a.0) [
          | inl empty ↦
              rw (empty, Ends)
                (record { tasks_fit = h.tasks_fit; channels_fit = h.channels_fit; holds = up })
          | inr ((buf, remote), e) ↦
              let less : E.udp.ready a.1 < E.udp.ready w.udp_socket = rw e at uses in
              let w' : Worker E = record w { shared = record w.shared { udp_socket = a.1 } } in
              rw (e, Ends)
                (Ends-bind (Fed (E.udp.ready a.1)) (Fits E laws role) (CycleHalt E)
                  (on_datagram E (clock n) buf remote w') _
                  (on_datagram-Ends (clock n) buf remote w'
                    (record { tasks_fit = h.tasks_fit; channels_fit = h.channels_fit; holds = up }))
                  λ w'' _ d. udp_loop-Ends fuel clock (suc n) w'' (omega (arith, d.no_more)) d.fits)
        ]

  pub process_udp-Ends :
      (clock : ℕ → ℕ) (w : Worker E)
      → Fits E laws role w
      → Ends (Fits E laws role) (CycleHalt E) (process_udp E clock w)
  unfolding process_udp
  process_udp-Ends clock w h =
      udp_loop-Ends (suc (E.udp.ready w.udp_socket)) clock 0 w (omega arith) h
