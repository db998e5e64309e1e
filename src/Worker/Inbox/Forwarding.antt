-- ===== src/Worker/Inbox/Forwarding.antt =====
-- What the bus delivers: each task of the channel gets its input once, and no other task anything.
use tiny_media_server.Prelude.{
  ℕ, suc, ◌≡◌, ◌∙◌, List, [], ◌∷◌, Bool, true, false, Option, some, Outcome, ok, >>=-eq-ok,
  Option-cases, Bool-cases, inl, inr, nat_key, ◌==◌, ==_iff, ==_refl, arith,
}
use tiny_media_server.Prelude.Map.{Map, get, insert, get-insert}
use tiny_media_server.Tasks.{WebrtcTaskInput}
use tiny_media_server.Worker.State.{Env, TaskContainer}
use tiny_media_server.Worker.Ended.Removal.{contains, has_repeat}
use tiny_media_server.Worker.Inbox.{give, deliver}

module _ (E : Env) where
  abbrev given :
      ℕ
      → TaskContainer E
      → Map ℕ (TaskContainer E)
      → Bool × E.task.Task
      → Outcome (Map ℕ (TaskContainer E))
  given i c tasks (acts, t) = ok (insert i (record c { task = t }) tasks)

  give_frame :
      (now i j : ℕ) (x : WebrtcTaskInput E.media) (tasks tasks' : Map ℕ (TaskContainer E))
      → (i == j) ≡ false
      → give E now i x tasks ≡ ok tasks'
      → get j tasks' ≡ get j tasks
  unfolding give
  give_frame now i j x tasks tasks' ne e = elim (Option-cases (get i tasks)) [
    | inl missing ↦ let same : ok tasks ≡ ok tasks' = rw (missing, give) at e in ground arith
    | inr (c, found) ↦
        let (s, fed, put) =
          >>=-eq-ok (E.task.input now x c.task) (given i c tasks) (rw (found, give) at e) in
        ground (arith, put, get-insert i j (record c { task = s.1 }) tasks)
  ]

  -- What a task came to by one input.
  pub record Fed (clock : ℕ → ℕ) (x : WebrtcTaskInput E.media) (c : TaskContainer E)
      (r : Option (TaskContainer E)) : Type 0 where
    pub turn : ℕ
    pub acts : Bool
    pub task : E.task.Task
    pub fed : E.task.input (clock turn) x c.task ≡ ok (acts, task)
    pub put : r ≡ some (record c { task = task })

  give_hit :
      (clock : ℕ → ℕ) (n i : ℕ) (x : WebrtcTaskInput E.media) (c : TaskContainer E)
      (tasks tasks' : Map ℕ (TaskContainer E))
      → get i tasks ≡ some c
      → give E (clock n) i x tasks ≡ ok tasks'
      → Fed clock x c (get i tasks')
  unfolding give
  give_hit clock n i x c tasks tasks' found e =
      let (s, fed, put) =
        >>=-eq-ok (E.task.input (clock n) x c.task) (given i c tasks) (rw (found, give) at e) in
      record {
        turn = n;
        acts = s.0;
        task = s.1;
        fed = fed;
        put = ground (arith, put, get-insert i i (record c { task = s.1 }) tasks, ==_refl i);
      }

  deliver_frame :
      (clock : ℕ → ℕ) (n j : ℕ) (ids : List ℕ) (x : WebrtcTaskInput E.media)
      (tasks tasks' : Map ℕ (TaskContainer E))
      → contains j ids ≡ false
      → deliver E clock n ids x tasks ≡ ok tasks'
      → get j tasks' ≡ get j tasks
  unfolding deliver
  deliver_frame clock n j [] x tasks tasks' out e = ground arith
  deliver_frame clock n j (i ∷ ids) x tasks tasks' out e =
      let (mid, first, rest) =
        >>=-eq-ok (give E (clock n) i x tasks) (deliver E clock (suc n) ids x) e in
      deliver_frame clock (suc n) j ids x mid tasks' (ground arith) rest
      ∙ give_frame (clock n) i j x tasks mid (ground arith) first

  deliver_hit :
      (clock : ℕ → ℕ) (n j : ℕ) (ids : List ℕ) (x : WebrtcTaskInput E.media) (c : TaskContainer E)
      (tasks tasks' : Map ℕ (TaskContainer E))
      → has_repeat ids ≡ false
      → contains j ids ≡ true
      → get j tasks ≡ some c
      → deliver E clock n ids x tasks ≡ ok tasks'
      → Fed clock x c (get j tasks')
  unfolding deliver
  deliver_hit clock n j [] x c tasks tasks' once inside live e = cc
  deliver_hit clock n j (i ∷ ids) x c tasks tasks' once inside live e =
      let (mid, first, rest) =
        >>=-eq-ok (give E (clock n) i x tasks) (deliver E clock (suc n) ids x) e in
      elim (Bool-cases (i == j)) [
        | inl here ↦
            let same : i ≡ j = (==_iff i j).0 here in
            rw (deliver_frame clock (suc n) j ids x mid tasks' (rw (← same) (ground arith)) rest)
              (rw (← same) (give_hit clock n i x c tasks mid (rw same live) first))
        | inr later ↦
            deliver_hit clock (suc n) j ids x c mid tasks' (ground arith) (ground arith)
              (give_frame (clock n) i j x tasks mid later first ∙ live) rest
      ]

  -- If the ids of a channel are distinct and deliver returns, then a task that is not listed is
  -- left as it was, and a live task that is listed has become what one input, at some reading of
  -- the clock, made of it.
  pub deliver_lem :
      (clock : ℕ → ℕ) (j : ℕ) (ids : List ℕ) (x : WebrtcTaskInput E.media)
      (tasks tasks' : Map ℕ (TaskContainer E))
      → has_repeat ids ≡ false
      → deliver E clock 0 ids x tasks ≡ ok tasks'
      → (contains j ids ≡ false → get j tasks' ≡ get j tasks)
        × ((c : TaskContainer E)
            → contains j ids ≡ true
            → get j tasks ≡ some c
            → Fed clock x c (get j tasks'))
  deliver_lem clock j ids x tasks tasks' once e = (
    λ out. deliver_frame clock 0 j ids x tasks tasks' out e,
    λ c inside live. deliver_hit clock 0 j ids x c tasks tasks' once inside live e,
  )
