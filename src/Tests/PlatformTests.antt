-- ===== src/Tests/PlatformTests.antt =====
-- The thread of a worker over the rings and sockets of the tests.
use tiny_media_server.Prelude.{List, [], ◌∷◌, true, some, Ends, some_injective, refl, arith, ◌≡◌}
use tiny_media_server.Io.{http_request}
use tiny_media_server.Net.Opening.{Socket2}
use tiny_media_server.Net.IoUring.Opening.{Rings, FreshLaws}
use tiny_media_server.Worker.State.{Env}
use tiny_media_server.Worker.Cycle.{Arrivals}
use tiny_media_server.Worker.Invariant.{IsRouted}
use tiny_media_server.Server.Thread.{ThreadHalt}
use tiny_media_server.Server.Platforms.{
  linux_env, linux_laws, linux_thread, linux_runs, bsd_env, bsd_laws, bsd_thread, bsd_runs,
}
use tiny_media_server.Tests.SenderBench.{attempted, sender_laws}
use tiny_media_server.Tests.Bench.{
  media, rtc_api, crates, rtc_laws, peer, whip_request, whep_request,
}
use tiny_media_server.Tests.NetTests.{os, os_laws, wire}
use tiny_media_server.Tests.RingBench.{ring, empty, ring_laws, read_laws, store_laws}

-- Each call succeeds.
abbrev s2 : Socket2
s2 = record {
  Socket = Unit;
  create = λ protocol. some tt;
  bind = λ addr s. some s;
  set_send_buffer_size = λ n s. some s;
  set_recv_buffer_size = λ n s. some s;
  set_nonblocking = λ b s. some s;
  local_addr = λ s. some (some peer);
}

abbrev rings : Rings ring
rings = record { create = λ size. some empty; is_supported = λ code r. true }

fresh_laws : FreshLaws ring read_laws rings
fresh_laws = record {
  idle = λ size r made j. rw (← some_injective made) (omega arith);
  unused = λ size r made. rw (← some_injective made) refl;
}

-- A publisher comes in one cycle, a viewer in the next.
abbrev cycles : (E : Env) → List (Arrivals E)
cycles E =
    record {
      bus_events = [];
      http_events = (http_request whip_request, 3, 10) ∷ [];
      tick_time = 10;
      pop_time = 10;
      udp_clock = λ n. 10;
    }
    ∷ record {
      bus_events = [];
      http_events = (http_request whep_request, 4, 20) ∷ [];
      tick_time = 20;
      pop_time = 20;
      udp_clock = λ n. 20;
    }
    ∷ []

abbrev on_linux : Env
on_linux = linux_env media rtc_api crates rtc_laws sender_laws s2 1 [] [] tt ring rings

linux_runs_example :
    Ends
      (λ w.
        IsRouted on_linux
          (linux_laws media rtc_api crates rtc_laws sender_laws s2 1 [] [] tt ring rings ring_laws
            read_laws store_laws)
          w
        × (attempted w.ext_send ≡ 0 ∷ 1 ∷ []))
      (ThreadHalt on_linux)
      (linux_thread media rtc_api crates rtc_laws sender_laws s2 1 [] [] tt ring rings
        (cycles on_linux))
linux_runs_example =
    linux_runs media rtc_api crates rtc_laws sender_laws s2 1 [] [] tt ring rings ring_laws
      read_laws store_laws fresh_laws (cycles on_linux) ((tt, tt), ((tt, tt), tt))

abbrev on_bsd : Env
on_bsd = bsd_env media rtc_api crates rtc_laws sender_laws s2 1 [] [] tt os os_laws (λ s. wire)

bsd_runs_example :
    Ends
      (λ w.
        IsRouted on_bsd
          (bsd_laws media rtc_api crates rtc_laws sender_laws s2 1 [] [] tt os os_laws (λ s. wire))
          w
        × (attempted w.ext_send ≡ 0 ∷ 1 ∷ []))
      (ThreadHalt on_bsd)
      (bsd_thread media rtc_api crates rtc_laws sender_laws s2 1 [] [] tt os os_laws
        (λ s. wire)
        (cycles on_bsd))
bsd_runs_example =
    bsd_runs media rtc_api crates rtc_laws sender_laws s2 1 [] [] tt os os_laws (λ s. wire)
      (cycles on_bsd) ((tt, tt), ((tt, tt), tt))
