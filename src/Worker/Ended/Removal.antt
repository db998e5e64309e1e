-- ===== src/Worker/Ended/Removal.antt =====
-- Which tasks and routes are left after `pop_ended_tasks`.
use tiny_media_server.Prelude.{
  ℕ, ◌≡◌, refl, List, [], ◌∷◌, All, Any, none, some, ok, halt, missing_task, >>=-eq-ok,
  Option-cases, Bool-cases, ◌⊎◌, inl, inr, nat_key, string_key, ◌==◌, ==_iff, ==_refl,
  if◌then◌else◌, Bool, true, false, ◌||◌, arith,
}
use tiny_media_server.Prelude.SocketAddr.{SocketAddr, addr_key}
use tiny_media_server.Prelude.Map.{Map, get, remove, get-remove}
use tiny_media_server.Tasks.Session.{expect}
use tiny_media_server.Worker.State.{Env, TaskContainer, Worker}
use tiny_media_server.Worker.Ended.{forget_remotes, forget, end_tasks, pop_ended_tasks}

abbrev pub contains : ℕ → List ℕ → Bool
contains i [] = false
contains i (x ∷ xs) = (x == i) || contains i xs

abbrev pub has_repeat : List ℕ → Bool
has_repeat [] = false
has_repeat (x ∷ xs) = contains x xs || has_repeat xs

pub get-forget_remotes :
    (a : SocketAddr) (gone : List SocketAddr) (remotes : Map SocketAddr ℕ)
    → Any (λ b. b ≡ a) gone ⊎ (get a remotes ≡ none)
    → get a (forget_remotes gone remotes) ≡ none
unfolding forget_remotes
get-forget_remotes a [] remotes (inl h) = absurd h
get-forget_remotes a [] remotes (inr h) = h
get-forget_remotes a (b ∷ gone) remotes (inl (inl e)) =
    get-forget_remotes a gone (remove b remotes)
      (inr (rw (get-remove b a remotes) (rw ((==_iff b a).1 e))))
get-forget_remotes a (b ∷ gone) remotes (inl (inr h)) =
    get-forget_remotes a gone (remove b remotes) (inl h)
get-forget_remotes a (b ∷ gone) remotes (inr h) =
    get-forget_remotes a gone (remove b remotes) (inr (rw (get-remove b a remotes) (ground arith)))

module _ (E : Env) where
  -- The ended tasks are gone, and every other task is as it was.
  tasks-end_tasks :
      (ids : List ℕ) (w : Worker E) (w' : Worker E) (j : ℕ)
      → end_tasks E ids w ≡ ok w'
      → get j w'.tasks ≡ (if contains j ids then none else get j w.tasks)
  unfolding end_tasks forget
  tasks-end_tasks [] w w' j e = ground arith
  tasks-end_tasks (task_id ∷ ids) w w' j e =
      let (c, found, rest) =
        >>=-eq-ok (expect missing_task (get task_id w.tasks))
          (λ c. end_tasks E ids (forget E task_id c w)) e in
      ground
        (arith, tasks-end_tasks ids (forget E task_id c w) w' j rest, get-remove task_id j w.tasks)

  -- If pop_ended_tasks returns, the ended tasks are gone and every other task is as it was.
  pub tasks-pop_ended_tasks :
      (w w' : Worker E) (j : ℕ)
      → pop_ended_tasks E w ≡ ok w'
      → get j w'.tasks ≡ (if contains j w.ended_tasks then none else get j w.tasks)
  unfolding pop_ended_tasks
  tasks-pop_ended_tasks w w' j e =
      tasks-end_tasks w.ended_tasks (record w { shared = record w.shared { ended_tasks = [] } }) w'
        j e

  -- After a task's removal neither its user name nor any of its remotes leads to a task.
  pub forget_routes :
      (task_id : ℕ) (c : TaskContainer E) (w : Worker E)
      → (get (E.task.ufrag c.task) (forget E task_id c w).task_ufrags ≡ none)
        × ((a : SocketAddr)
            → Any (λ b. b ≡ a) c.remotes
            → get a (forget E task_id c w).task_remotes ≡ none)
  unfolding forget
  forget_routes task_id c w = (
    rw (get-remove (E.task.ufrag c.task) (E.task.ufrag c.task) w.task_ufrags)
        (rw (==_refl (E.task.ufrag c.task))),
    λ a h. get-forget_remotes a c.remotes w.task_remotes (inl h),
  )

  -- A task that ended twice in one cycle takes the worker down.
  end_tasks_gone :
      (task_id : ℕ) (ids : List ℕ) (w : Worker E)
      → get task_id w.tasks ≡ none
      → contains task_id ids ≡ true
      → end_tasks E ids w ≡ halt missing_task
  unfolding end_tasks forget
  end_tasks_gone task_id [] w h k = cc
  end_tasks_gone task_id (i ∷ ids) w h k = elim (Option-cases (get i w.tasks)) [
    | inl e ↦ rw (e, end_tasks)
    | inr (c, e) ↦
        rw (e, end_tasks)
          (end_tasks_gone task_id ids (forget E i c w)
            (rw (get-remove i task_id w.tasks) (ground arith)) (ground (arith, ==_iff i task_id)))
  ]

  abbrev pub IsLive : Worker E → ℕ → Type 0
  IsLive w i = (c : TaskContainer E) × (get i w.tasks ≡ some c)

  forget-IsLive :
      (i : ℕ) (c : TaskContainer E) (ids : List ℕ) (w : Worker E)
      → contains i ids ≡ false
      → All (IsLive w) ids
      → All (IsLive (forget E i c w)) ids
  unfolding forget
  forget-IsLive i c [] w k h = tt
  forget-IsLive i c (j ∷ ids) w k h = (
    (h.0.0, rw (get-remove i j w.tasks) (ground (arith, ==_iff i j, ==_iff j i, h.0.1))),
    forget-IsLive i c ids w (ground arith) h.1,
  )

  end_tasks_repeat :
      (ids : List ℕ) (w : Worker E)
      → All (IsLive w) ids
      → has_repeat ids ≡ true
      → end_tasks E ids w ≡ halt missing_task
  unfolding end_tasks
  end_tasks_repeat [] w h k = cc
  end_tasks_repeat (i ∷ ids) w h k = elim (Bool-cases (contains i ids)) [
    | inl again ↦
        rw (h.0.1, end_tasks)
          (end_tasks_gone i ids (forget E i h.0.0 w)
            (unfold forget in rw (get-remove i i w.tasks) (rw (==_refl i))) again)
    | inr once ↦
        rw (h.0.1, end_tasks)
          (end_tasks_repeat ids (forget E i h.0.0 w) (forget-IsLive i h.0.0 ids w once h.1)
            (ground arith))
  ]

  end_tasks_once :
      (ids : List ℕ) (w : Worker E)
      → All (IsLive w) ids
      → has_repeat ids ≡ false
      → (w' : Worker E) × (end_tasks E ids w ≡ ok w')
  unfolding end_tasks
  end_tasks_once [] w h k = (w, refl)
  end_tasks_once (i ∷ ids) w h k =
      let rest =
        end_tasks_once ids (forget E i h.0.0 w) (forget-IsLive i h.0.0 ids w (ground arith) h.1)
          (ground arith) in
      (rest.0, rw (h.0.1, end_tasks) rest.1)

  -- If every ended task is there, pop_ended_tasks panics when one of them is listed more than
  -- once, and returns when each is listed once.
  pub pop_ended_tasks_lem :
      (w : Worker E)
      → All (IsLive w) w.ended_tasks
      → (has_repeat w.ended_tasks ≡ true → pop_ended_tasks E w ≡ halt missing_task)
        × (has_repeat w.ended_tasks ≡ false → (w' : Worker E) × (pop_ended_tasks E w ≡ ok w'))
  unfolding pop_ended_tasks
  pop_ended_tasks_lem w h =
      let drained : Worker E = record w { shared = record w.shared { ended_tasks = [] } } in
      (end_tasks_repeat w.ended_tasks drained h, end_tasks_once w.ended_tasks drained h)
