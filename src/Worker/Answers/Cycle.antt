-- ===== src/Worker/Answers/Cycle.antt =====
-- The requests that come in over a whole cycle of the worker, src/worker.rs.
use mathlib.Core.List.{append-nil}
use tiny_media_server.Prelude.{
  String, ℕ, zero, suc, ◌≡◌, List, [], ◌∷◌, ◌++◌, Option, none, some, Outcome, ◌>>=◌, Yields,
  Yields-any, Yields-bind, Yields-weaken, Option-cases, inl, inr, nat_key, string_key,
}
use tiny_media_server.Prelude.SocketAddr.{SocketAddr, addr_key}
use tiny_media_server.Prelude.Map.{get, All-get, All-insert, All-remove}
use tiny_media_server.Tasks.{WebrtcTaskInput}
use tiny_media_server.Io.{udp_socket_recv}
use tiny_media_server.Worker.State.{Env, Worker}
use tiny_media_server.Worker.PopTask.{pop_task}
use tiny_media_server.Worker.Inbox.{process_bus_recv, process_http, process_tick, pop_tasks}
use tiny_media_server.Worker.Ended.{forget, end_tasks, pop_ended_tasks}
use tiny_media_server.Worker.Udp.{
  get_stun_username, map_remote, match_username, find_slot, feed, on_datagram, udp_loop,
  process_udp,
}
use tiny_media_server.Worker.Cycle.{Arrivals, flush, process_cycle}
use tiny_media_server.Worker.Answers.{AnswerLaws, Answered, IsQuiet, pop_task-Answered}
use tiny_media_server.Worker.Answers.Inbox.{
  requested, Quiet, Answers, Attempts-refl, Answers-trans, process_bus_recv-Answers,
  process_http-Answers, process_tick-Quiet, pop_tasks-Answers,
}

module _ (E : Env) (laws : AnswerLaws E) where
  open laws use {owes, attempted}

  end_tasks-Answers :
      (ids : List ℕ) (w : Worker E)
      → Quiet E laws w
      → Yields (Answers E laws [] w) (end_tasks E ids w)
  unfolding end_tasks forget
  end_tasks-Answers [] w h = (h, Attempts-refl E laws w.shared)
  end_tasks-Answers (task_id ∷ ids) w h = elim (Option-cases (get task_id w.tasks)) [
    | inl missing ↦ rw missing tt
    | inr (c, found) ↦ rw found (
        end_tasks-Answers ids (forget E task_id c w)
          (All-remove (IsQuiet E laws) task_id w.tasks h))
  ]

  pop_ended_tasks-Answers :
      (w : Worker E) → Quiet E laws w → Yields (Answers E laws [] w) (pop_ended_tasks E w)
  unfolding pop_ended_tasks
  pop_ended_tasks-Answers w h =
      end_tasks-Answers w.ended_tasks (record w { shared = record w.shared { ended_tasks = [] } }) h

  -- `find_slot` changes remotes only.
  map_remote-Quiet :
      (remote : SocketAddr) (task_id : ℕ) (w : Worker E)
      → Quiet E laws w
      → Answers E laws [] w (map_remote E remote task_id w).1
  unfolding map_remote
  map_remote-Quiet remote task_id w h = elim (Option-cases (get task_id w.tasks)) [
    | inl e ↦ rw (e, map_remote) (h, Attempts-refl E laws w.shared)
    | inr (c, e) ↦
        rw (e, map_remote)
          (
            All-insert (IsQuiet E laws) task_id (record c { remotes = c.remotes ++ remote ∷ [] })
                w.tasks (All-get (IsQuiet E laws) task_id w.tasks c h e) h,
            Attempts-refl E laws w.shared,
          )
  ]

  match_username-Quiet :
      (remote : SocketAddr) (u : Option String) (w : Worker E)
      → Quiet E laws w
      → Answers E laws [] w (match_username E remote u w).1
  unfolding match_username
  match_username-Quiet remote none w h = (h, Attempts-refl E laws w.shared)
  match_username-Quiet remote (some u) w h = elim (Option-cases (get u w.task_ufrags)) [
    | inl e ↦ rw (e, match_username) (h, Attempts-refl E laws w.shared)
    | inr (task_id, e) ↦ rw (e, match_username) (map_remote-Quiet remote task_id w h)
  ]

  find_slot-Answers :
      (buf : List ℕ) (remote : SocketAddr) (w : Worker E)
      → Quiet E laws w
      → Yields (λ r. Answers E laws [] w r.1) (find_slot E buf remote w)
  unfolding find_slot
  find_slot-Answers buf remote w h = elim (Option-cases (get remote w.task_remotes)) [
    | inr (task_id, e) ↦ rw (e, find_slot, Yields) (h, Attempts-refl E laws w.shared)
    | inl e ↦
        rw (e, find_slot, Yields)
          (Yields-bind (λ _. Unit) (λ r. Answers E laws [] w r.1) (get_stun_username E buf) _
            (Yields-any (get_stun_username E buf)) λ u _. match_username-Quiet remote u w h)
  ]

  feed-Answers :
      (now : ℕ) (buf : List ℕ) (remote : SocketAddr) (slot : Option ℕ) (w : Worker E)
      → Quiet E laws w
      → Yields (Answers E laws [] w) (feed E now buf remote slot w)
  unfolding feed
  feed-Answers now buf remote none w h = (h, Attempts-refl E laws w.shared)
  feed-Answers now buf remote (some task_id) w h = elim (Option-cases (get task_id w.tasks)) [
    | inl e ↦ rw (e, feed, Yields) (h, Attempts-refl E laws w.shared)
    | inr (c, e) ↦
        let quiet : owes c.task ≡ [] = All-get (IsQuiet E laws) task_id w.tasks c h e in
        rw (e, feed, Yields)
          (Yields-bind (λ s. owes s.1 ≡ owes c.task) (Answers E laws [] w)
            (E.task.input now
              (WebrtcTaskInput.io (udp_socket_recv remote w.udp_socket_local_addr buf)) c.task)
            _ (laws.input-owes now _ c.task)
            λ (b, t) same.
              Yields-bind (Answered E laws (record c { task = t }) w.shared) (Answers E laws [] w)
                (pop_task E now task_id (record c { task = t }) w.shared) _
                (pop_task-Answered E laws now task_id (record c { task = t }) w.shared)
                λ (c', s) (done, last). (
                  All-insert (IsQuiet E laws) task_id c' w.tasks last h,
                  rw (← quiet, ← same) done,
                ))
  ]

  on_datagram-Answers :
      (now : ℕ) (buf : List ℕ) (remote : SocketAddr) (w : Worker E)
      → Quiet E laws w
      → Yields (Answers E laws [] w) (on_datagram E now buf remote w)
  unfolding on_datagram
  on_datagram-Answers now buf remote w h =
      Yields-bind (λ r. Answers E laws [] w r.1) (Answers E laws [] w) (find_slot E buf remote w) _
        (find_slot-Answers buf remote w h)
        λ (slot, w') a.
          Yields-weaken (Answers E laws [] w') (Answers E laws [] w) _
            (feed-Answers now buf remote slot w' a.0)
            λ w'' b. Answers-trans E laws [] [] w w' w'' a b

  udp_loop-Answers :
      (fuel : ℕ) (clock : ℕ → ℕ) (n : ℕ) (w : Worker E)
      → Quiet E laws w
      → Yields (Answers E laws [] w) (udp_loop E fuel clock n w)
  unfolding udp_loop
  udp_loop-Answers zero clock n w h = tt
  udp_loop-Answers (suc fuel) clock n w h =
      Yields-bind (λ _. Unit) (Answers E laws [] w) (E.udp.recv_from w.udp_socket) _
        (Yields-any (E.udp.recv_from w.udp_socket))
        λ r _. elim (Option-cases r.0) [
          | inl empty ↦ rw (empty, Yields) (h, Attempts-refl E laws w.shared)
          | inr ((buf, remote), e) ↦
              let w' : Worker E = record w { shared = record w.shared { udp_socket = r.1 } } in
              rw (e, Yields)
                (Yields-bind (Answers E laws [] w') (Answers E laws [] w)
                  (on_datagram E (clock n) buf remote w') _
                  (on_datagram-Answers (clock n) buf remote w' h)
                  λ w'' a.
                    Yields-weaken (Answers E laws [] w'') (Answers E laws [] w) _
                      (udp_loop-Answers fuel clock (suc n) w'' a.0)
                      λ w₃ b. Answers-trans E laws [] [] w w'' w₃ a b)
        ]

  process_udp-Answers :
      (clock : ℕ → ℕ) (w : Worker E)
      → Quiet E laws w
      → Yields (Answers E laws [] w) (process_udp E clock w)
  unfolding process_udp
  process_udp-Answers clock w h = udp_loop-Answers (suc (E.udp.ready w.udp_socket)) clock 0 w h

  flush-Answers : (w : Worker E) → Quiet E laws w → Yields (Answers E laws [] w) (flush E w)
  unfolding flush
  flush-Answers w h =
      Yields-bind (λ _. Unit) (Answers E laws [] w) (E.udp.commit_send_to w.udp_socket) _
        (Yields-any (E.udp.commit_send_to w.udp_socket))
        λ r _.
          Yields-bind (λ _. Unit) (Answers E laws [] w) (E.udp.finish_read_from r.1) _
            (Yields-any (E.udp.finish_read_from r.1)) λ q _. (h, Attempts-refl E laws w.shared)

  -- A step that answers `ys` after one that answered `xs`.
  then-Answers :
      (xs ys : List ℕ) (w : Worker E) (r : Outcome (Worker E)) (f : Worker E → Outcome (Worker E))
      → Yields (Answers E laws xs w) r
      → ((w' : Worker E) → Quiet E laws w' → Yields (Answers E laws ys w') (f w'))
      → Yields (Answers E laws (xs ++ ys) w) (r >>= f)
  then-Answers xs ys w r f h k =
      Yields-bind (Answers E laws xs w) (Answers E laws (xs ++ ys) w) r f h λ w' a.
        Yields-weaken (Answers E laws ys w') (Answers E laws (xs ++ ys) w) (f w') (k w' a.0)
          λ w'' b. Answers-trans E laws xs ys w w' w'' a b

  pub process_cycle-Answers :
      (a : Arrivals E) (w : Worker E)
      → Quiet E laws w
      → Yields (Answers E laws (requested a.http_events) w) (process_cycle E a w)
  unfolding process_cycle process_tick
  process_cycle-Answers a w h =
      let ids = requested a.http_events in
      rw (← append-nil ids) (
        then-Answers [] (ids ++ []) w (process_bus_recv E a.bus_events w) _
          (process_bus_recv-Answers E laws a.bus_events w h)
          λ w₁ h₁.
            then-Answers ids [] w₁ (process_http E a.http_events w₁) _
              (process_http-Answers E laws a.http_events w₁ h₁)
              λ w₂ h₂.
                then-Answers [] [] w₂ (pop_tasks E a.pop_time (process_tick E a.tick_time w₂)) _
                  (pop_tasks-Answers E laws a.pop_time (process_tick E a.tick_time w₂)
                    (process_tick-Quiet E laws a.tick_time w₂ h₂))
                  λ w₃ h₃.
                    then-Answers [] [] w₃ (pop_ended_tasks E w₃) _ (pop_ended_tasks-Answers w₃ h₃)
                      λ w₄ h₄.
                        then-Answers [] [] w₄ (process_udp E a.udp_clock w₄) _
                          (process_udp-Answers a.udp_clock w₄ h₄) flush-Answers)
