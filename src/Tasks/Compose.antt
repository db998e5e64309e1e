-- ===== src/Tasks/Compose.antt =====
-- `ComposeTask` of src/tasks/mod.rs: either task behind the trait.
pub mod Laws
use tiny_media_server.Prelude.{ℕ, String, List, Bool, Option, Outcome, ok, ◌>>=◌}
use tiny_media_server.Tasks.{WebrtcTask, WebrtcTaskInput, WebrtcTaskOutput}
use tiny_media_server.Tasks.Str0m.{Media}
use tiny_media_server.Tasks.Rtc.{RtcApi}
use tiny_media_server.Tasks.Whip
use tiny_media_server.Tasks.Whip.{WhipServerTask}
use tiny_media_server.Tasks.Whep
use tiny_media_server.Tasks.Whep.{WhepServerTask}

module _ (m : Media) (r : RtcApi m) where
  pub data ComposeTask : Type 0 where
    whip : WhipServerTask m r → ComposeTask
    whep : WhepServerTask m r → ComposeTask

  unfoldable pub ufrag : ComposeTask → String
  ufrag (whip task) = task.ice_ufrag
  ufrag (whep task) = task.ice_ufrag

  unfoldable pub tick : ℕ → ComposeTask → Bool × ComposeTask
  tick now (whip task) = let (b, t) = Whip.tick m r now task in (b, whip t)
  tick now (whep task) = let (b, t) = Whep.tick m r now task in (b, whep t)

  unfoldable pub input : ℕ → WebrtcTaskInput m → ComposeTask → Outcome (Bool × ComposeTask)
  input now i (whip task) = do (b, t) ← Whip.input m r now i task; ok (b, whip t)
  input now i (whep task) = do (b, t) ← Whep.input m r now i task; ok (b, whep t)

  unfoldable pub pop_action : ℕ → ComposeTask → Option (WebrtcTaskOutput m) × ComposeTask
  pop_action now (whip task) = let (o, t) = Whip.pop_action m r now task in (o, whip t)
  pop_action now (whep task) = let (o, t) = Whep.pop_action m r now task in (o, whep t)

  abbrev pub pending : ComposeTask → ℕ
  pending (whip task) = Whip.pending m r task
  pending (whep task) = Whep.pending m r task

  abbrev pub compose_task : WebrtcTask m
  compose_task = record {
    Task = ComposeTask;
    ufrag = ufrag;
    tick = tick;
    input = input;
    pop_action = pop_action;
    pending = pending;
  }
