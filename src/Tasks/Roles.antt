-- ===== src/Tasks/Roles.antt =====
-- A worker routes by what tasks have said: publishers are its sources, viewers its consumers. This
-- file states what the two kinds of task say and take, and what the worker relies on.
use tiny_media_server.Prelude.{
  ℕ, ◌<◌, ◌≡◌, Option, none, some, Halt, unparsed_udp, no_video_stream, Ends,
}
use tiny_media_server.Io.{http_request}
use tiny_media_server.Tasks.{WebrtcTaskInput, WebrtcTaskOutput, WebrtcTask}
use tiny_media_server.Tasks.Str0m.{Media}

pub data Role : Type 0 where
  source : Role
  consumer : Role

module _ (m : Media) where
  -- Publishers never subscribe nor ask for keyframes, viewers never publish nor send media.
  abbrev pub Says : Role → WebrtcTaskOutput m → Type 0
  Says source (WebrtcTaskOutput.subscribe_track t) = ⊥
  Says source (WebrtcTaskOutput.request_keyframe_track t k) = ⊥
  Says consumer (WebrtcTaskOutput.publish_track t) = ⊥
  Says consumer (WebrtcTaskOutput.track_media t) = ⊥
  Says _ _ = Unit

  -- The same of what `pop_action` returned.
  abbrev pub SaysIf : Role → Option (WebrtcTaskOutput m) → Type 0
  SaysIf k none = Unit
  SaysIf k (some o) = Says k o

  -- Every task takes datagrams, only publishers keyframe requests, only viewers media.
  abbrev pub Takes : Role → WebrtcTaskInput m → Type 0
  Takes _ (WebrtcTaskInput.io (http_request req)) = ⊥
  Takes source (WebrtcTaskInput.track_media t) = ⊥
  Takes consumer (WebrtcTaskInput.request_keyframe_track t k) = ⊥
  Takes _ _ = Unit

-- An answer was paid for: some number fell.
abbrev pub Uses {ℓ} : {A : Type ℓ} → Option A → ℕ → ℕ → Type 0
Uses none before after = Unit
Uses (some a) before after = after < before

-- The panics that an accepted input may still end in.
abbrev pub InputPanic : Halt → Type 0
InputPanic unparsed_udp = Unit
InputPanic no_video_stream = Unit
InputPanic _ = ⊥

-- What the worker relies on. `Plays` is an invariant of the task's own, for each role.
pub record TaskLaws (m : Media) (T : WebrtcTask m) : Type 1 where
  pub Plays : Role → T.Task → Type 0
  pub tick-Plays : (k : Role) (now : ℕ) (t : T.Task) → Plays k t → Plays k (T.tick now t).1
  pub tick-ufrag : (now : ℕ) (t : T.Task) → T.ufrag (T.tick now t).1 ≡ T.ufrag t
  pub input-Ends :
      (k : Role) (now : ℕ) (i : WebrtcTaskInput m) (t : T.Task)
      → Plays k t
      → Takes m k i
      → Ends (λ s. Plays k s.1 × (T.ufrag s.1 ≡ T.ufrag t)) InputPanic (T.input now i t)
  pub pop-Plays : (k : Role) (now : ℕ) (t : T.Task) → Plays k t → Plays k (T.pop_action now t).1
  pub pop-Says : (k : Role) (now : ℕ) (t : T.Task) → Plays k t → SaysIf m k (T.pop_action now t).0
  pub pop-ufrag : (now : ℕ) (t : T.Task) → T.ufrag (T.pop_action now t).1 ≡ T.ufrag t
  pub pop-pending :
      (now : ℕ) (t : T.Task)
      → Uses (T.pop_action now t).0 (T.pending t) (T.pending (T.pop_action now t).1)
