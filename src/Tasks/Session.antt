-- ===== src/Tasks/Session.antt =====
-- What src/tasks/whip.rs and src/tasks/whep.rs do alike: opening a session, the deadline, and the
-- first steps of `pop_action`.
pub mod Laws
use tiny_media_server.Prelude.{
  ℕ, List, [], ◌∷◌, Bool, true, false, Option, none, some, Outcome, ok, halt, Halt, no_candidate,
  ◌>>=◌, ltb,
}
use tiny_media_server.Prelude.SocketAddr.{SocketAddr}
use tiny_media_server.Tasks.Str0m.{Media}
use tiny_media_server.Tasks.Rtc.{RtcApi}

-- `expect` on an `Option`, and on a `Result` whose error is not looked at.
abbrev pub expect {ℓ} : {A : Type ℓ} → Halt → Option A → Outcome A
expect p none = halt p
expect p (some a) = ok a

-- `if let Some(timeout) = self.timeout { if timeout > now { … } }`
unfoldable pub waits : ℕ → Option ℕ → Bool
waits now none = false
waits now (some timeout) = ltb now timeout

module _ (m : Media) (r : RtcApi m) where
  open r use {Rtc, RtcConfig, DtlsCert, builder, set_rtp_mode, set_ice_lite, set_dtls_cert}
  open r use {host, add_local_candidate}

  unfoldable pub rtc_config : DtlsCert → ℕ → RtcConfig
  rtc_config cert entropy =
      set_dtls_cert cert (set_ice_lite true (set_rtp_mode true (builder entropy)))

  unfoldable pub add_local_candidates : List SocketAddr → Rtc → Outcome Rtc
  add_local_candidates [] rtc = ok rtc
  add_local_candidates (addr ∷ addrs) rtc = do
    candidate ← expect no_candidate (host addr)
    add_local_candidates addrs (add_local_candidate candidate rtc)
