-- ===== src/Tasks/Clock.antt =====
-- What a task with a deadline ahead says.
use tiny_media_server.Prelude.{ℕ, ◌≡◌, ◌<◌, none, some, [], arith}
use tiny_media_server.Tasks.Str0m.{Media}
use tiny_media_server.Tasks.Rtc.{RtcApi}
use tiny_media_server.Tasks.Whip
use tiny_media_server.Tasks.Whip.{WhipServerTask}

module _ (m : Media) (r : RtcApi m) (now : ℕ) where
  -- A task says nothing, and its session is not polled, while it has no outputs and a deadline ahead.
  pub whip_sleeps :
      (t : WhipServerTask m r) (at : ℕ)
      → t.outputs ≡ []
      → t.timeout ≡ some at
      → now < at
      → Whip.pop_action m r now t ≡ (none, t)
  unfolding Whip.pop_action
  whip_sleeps t at empty set ahead = ground arith
