-- ===== src/Worker/PopTask/Room.antt =====
-- How many media `pop_task` of src/worker.rs can broadcast before the bus is full.
use tiny_media_server.Prelude.{
  ℕ, zero, suc, ◌+◌, ◌≤◌, ◌<◌, ◌≡◌, refl, List, [], ◌∷◌, length, none, some, Outcome, ok, halt,
  full_bus, arith, ◌⊎◌, inl, inr,
}
use tiny_media_server.Tasks.{TrackMedia, WebrtcTaskOutput}
use tiny_media_server.Worker.State.{Env, BusEvent, track_media, TaskContainer, Shared}
use tiny_media_server.Worker.PopTask.{handle_action, pop_loop, pop_task}
use tiny_media_server.Worker.Invariant.{EnvLaws}

-- While no reader reads, each broadcast takes room from the bus, and waits if there is none.
pub record BusLaws (E : Env) : Type 0 where
  pub room : E.Bus → ℕ
  pub has_room :
      (e : BusEvent E.media) (b : E.Bus) (n : ℕ)
      → room b ≡ suc n
      → (b' : E.Bus) × (E.broadcast e b ≡ some b') × (room b' ≡ n)
  pub no_room : (e : BusEvent E.media) (b : E.Bus) → room b ≡ 0 → E.broadcast e b ≡ none

zero_or_suc : (n : ℕ) → (n ≡ 0) ⊎ ((m : ℕ) × (n ≡ suc m))
zero_or_suc zero = inl refl
zero_or_suc (suc m) = inr (m, refl)

module _ (E : Env) (now : ℕ) where
  -- The task says these media, one after the other, then nothing more, and is then `t'`.
  abbrev pub Says : E.task.Task → List (TrackMedia E.media) → E.task.Task → Type 0
  Says t [] t' = ((E.task.pop_action now t).0 ≡ none) × ((E.task.pop_action now t).1 ≡ t')
  Says t (media ∷ medias) t' =
      ((E.task.pop_action now t).0 ≡ some (WebrtcTaskOutput.track_media media))
      × Says (E.task.pop_action now t).1 medias t'

module _ (E : Env) (laws : EnvLaws E) (bus : BusLaws E) (now : ℕ) where
  -- What is left of `pop_task` once the task has said so many media.
  abbrev pub Broadcast :
      ℕ → E.task.Task → TaskContainer E → Shared E → Outcome (TaskContainer E × Shared E) → Type 0
  Broadcast count t' c s r =
      (count ≤ bus.room s.bus_send
        → (b : E.Bus) × (r ≡ ok (record c { task = t' }, record s { bus_send = b }))
          × (bus.room b + count ≡ bus.room s.bus_send))
      × (bus.room s.bus_send < count → r ≡ halt full_bus)

  pop_loop-room :
      (fuel task_id : ℕ) (c : TaskContainer E) (s : Shared E) (medias : List (TrackMedia E.media))
      (t' : E.task.Task)
      → E.task.pending c.task < fuel
      → Says E now c.task medias t'
      → Broadcast (length medias) t' c s (pop_loop E fuel now task_id c s)
  unfolding pop_loop handle_action
  pop_loop-room zero task_id c s medias t' fueled h = absurd (omega arith)
  pop_loop-room (suc fuel) task_id c s [] t' fueled h = (
    λ fits. (s.bus_send, rw (h.0, h.1, pop_loop) refl, omega arith),
    λ over. absurd (omega (arith, over)),
  )
  pop_loop-room (suc fuel) task_id c s (media ∷ medias) t' fueled h =
      let next : TaskContainer E = record c { task = (E.task.pop_action now c.task).1 } in
      let falls : E.task.pending next.task < E.task.pending c.task =
        rw h.0 at (laws.tasks.pop-pending now c.task) in
      elim (zero_or_suc (bus.room s.bus_send)) [
        | inl empty ↦ (
          λ fits. absurd (omega (arith, fits, empty)),
          λ over. rw (h.0, pop_loop, bus.no_room (track_media media) s.bus_send empty) refl,
        )
        | inr (n, some_room) ↦
            let (b, taken, left) = bus.has_room (track_media media) s.bus_send n some_room in
            let rest =
              pop_loop-room fuel task_id next (record s { bus_send = b }) medias t'
                (omega (arith, falls, fueled)) h.1 in
            rw (h.0, pop_loop, taken)
              (
                λ fits.
                    let (b', returned, used) = rest.0 (omega (arith, fits, left, some_room)) in
                    (b', returned, omega (arith, used, left, some_room)),
                λ over. rest.1 (omega (arith, over, left, some_room)),
              )
      ]

  -- Over a bus from which, while nobody reads, each broadcast takes one place and waits if there
  -- is none: on a task that says some media and then nothing more, pop_task returns, with the
  -- places that the media took gone from the bus, if there is room for all of them, and waits for
  -- ever if there is not.
  pub pop_task-room :
      (task_id : ℕ) (c : TaskContainer E) (s : Shared E) (medias : List (TrackMedia E.media))
      (t' : E.task.Task)
      → Says E now c.task medias t'
      → Broadcast (length medias) t' c s (pop_task E now task_id c s)
  unfolding pop_task
  pop_task-room task_id c s medias t' h = pop_loop-room _ task_id c s medias t' (omega arith) h
