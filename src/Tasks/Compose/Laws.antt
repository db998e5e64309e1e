-- ===== src/Tasks/Compose/Laws.antt =====
-- `ComposeTask` meets what the worker relies on.
use tiny_media_server.Prelude.{ℕ, ◌≡◌, Ends, Ends-bind}
use tiny_media_server.Tasks.{WebrtcTaskInput}
use tiny_media_server.Tasks.Str0m.{Media}
use tiny_media_server.Tasks.Rtc.{RtcApi, RtcLaws}
use tiny_media_server.Tasks.Roles.{
  Role, source, consumer, TaskLaws, SaysIf, Takes, Uses, InputPanic,
}
use tiny_media_server.Tasks.Whip
use tiny_media_server.Tasks.Whip.{WhipServerTask}
use tiny_media_server.Tasks.Whep
use tiny_media_server.Tasks.Whep.{WhepServerTask}
use tiny_media_server.Tasks.Compose.{
  ComposeTask, whip, whep, ufrag, tick, input, pop_action, pending, compose_task,
}

module _ (m : Media) (r : RtcApi m) where
  abbrev pub Plays : Role → ComposeTask m r → Type 0
  Plays source (whip t) = Whip.Laws.IsPublisher m r t
  Plays consumer (whep t) = Whep.Laws.IsViewer m r t
  Plays source (whep t) = ⊥
  Plays consumer (whip t) = ⊥

  pub tick-Plays :
      (k : Role) (now : ℕ) (t : ComposeTask m r) → Plays k t → Plays k (tick m r now t).1
  unfolding tick
  tick-Plays source now (whip t) h = rw (Whip.Laws.tick_keeps m r now t).0 h
  tick-Plays consumer now (whep t) h = rw (Whep.Laws.tick_keeps m r now t).0 h
  tick-Plays source now (whep t) h = absurd h
  tick-Plays consumer now (whip t) h = absurd h

  pub tick-ufrag : (now : ℕ) (t : ComposeTask m r) → ufrag m r (tick m r now t).1 ≡ ufrag m r t
  unfolding tick ufrag
  tick-ufrag now (whip t) = (Whip.Laws.tick_keeps m r now t).1
  tick-ufrag now (whep t) = (Whep.Laws.tick_keeps m r now t).1

  pub input-Ends :
      (k : Role) (now : ℕ) (i : WebrtcTaskInput m) (t : ComposeTask m r)
      → Plays k t
      → Takes m k i
      → Ends (λ s. Plays k s.1 × (ufrag m r s.1 ≡ ufrag m r t)) InputPanic (input m r now i t)
  unfolding input ufrag
  input-Ends source now i (whip t) h k =
      Ends-bind _ _ InputPanic (Whip.input m r now i t) _ (Whip.Laws.input-Ends m r now i t h k)
        λ s _ p. p
  input-Ends consumer now i (whep t) h k =
      Ends-bind _ _ InputPanic (Whep.input m r now i t) _ (Whep.Laws.input-Ends m r now i t h k)
        λ s _ p. p
  input-Ends source now i (whep t) h k = absurd h
  input-Ends consumer now i (whip t) h k = absurd h

  pub pop-Plays :
      (k : Role) (now : ℕ) (t : ComposeTask m r) → Plays k t → Plays k (pop_action m r now t).1
  unfolding pop_action
  pop-Plays source now (whip t) h = (Whip.Laws.pop_keeps m r now t h).0
  pop-Plays consumer now (whep t) h = (Whep.Laws.pop_keeps m r now t h).0
  pop-Plays source now (whep t) h = absurd h
  pop-Plays consumer now (whip t) h = absurd h

  pub pop-Says :
      (k : Role) (now : ℕ) (t : ComposeTask m r) → Plays k t → SaysIf m k (pop_action m r now t).0
  unfolding pop_action
  pop-Says source now (whip t) h = (Whip.Laws.pop_keeps m r now t h).1
  pop-Says consumer now (whep t) h = (Whep.Laws.pop_keeps m r now t h).1
  pop-Says source now (whep t) h = absurd h
  pop-Says consumer now (whip t) h = absurd h

  pub pop-ufrag : (now : ℕ) (t : ComposeTask m r) → ufrag m r (pop_action m r now t).1 ≡ ufrag m r t
  unfolding pop_action ufrag
  pop-ufrag now (whip t) = Whip.Laws.pop-ufrag m r now t
  pop-ufrag now (whep t) = Whep.Laws.pop-ufrag m r now t

  pub pop-pending :
      (laws : RtcLaws r) (now : ℕ) (t : ComposeTask m r)
      → Uses (pop_action m r now t).0 (pending m r t) (pending m r (pop_action m r now t).1)
  unfolding pop_action
  pop-pending laws now (whip t) = Whip.Laws.pop-Uses m r laws now t
  pop-pending laws now (whep t) = Whep.Laws.pop-Uses m r laws now t

  abbrev pub compose_laws : RtcLaws r → TaskLaws m (compose_task m r)
  compose_laws laws = record {
    Plays = Plays;
    tick-Plays = tick-Plays;
    tick-ufrag = tick-ufrag;
    input-Ends = input-Ends;
    pop-Plays = pop-Plays;
    pop-Says = pop-Says;
    pop-ufrag = pop-ufrag;
    pop-pending = pop-pending laws;
  }
