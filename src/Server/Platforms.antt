-- ===== src/Server/Platforms.antt =====
-- The thread of a worker on the platforms that src/worker.rs tells
-- apart: io_uring on linux and android, sendmmsg on freebsd and netbsd, plain calls elsewhere.
use tiny_media_server.Prelude.{ℕ, List, [], ◌∷◌, All, Option, some, Outcome, Ends, arith, ◌≡◌, ◌++◌}
use tiny_media_server.Prelude.SocketAddr.{SocketAddr}
use tiny_media_server.Net.Os.{OsSocket, OsLaws}
use tiny_media_server.Net.Opening.{Socket2}
use tiny_media_server.Net.Plain
use tiny_media_server.Net.Plain.{plain_socket, any_state}
use tiny_media_server.Net.Mmsg
use tiny_media_server.Net.Mmsg.{mmsg_socket}
use tiny_media_server.Net.Mmsg.Laws.{mmsg_laws}
use tiny_media_server.Net.IoUring.Ring.{IoUring, RingLaws}
use tiny_media_server.Net.IoUring.Socket.{uring_socket}
use tiny_media_server.Net.IoUring.Receiving.{ReadLaws}
use tiny_media_server.Net.IoUring.Store.{StoreLaws}
use tiny_media_server.Net.IoUring.Opening as UringOpening
use tiny_media_server.Net.IoUring.Opening.{Rings, FreshLaws}
use tiny_media_server.Net.IoUring.Laws.{uring_laws}
use tiny_media_server.Tasks.Str0m.{Media}
use tiny_media_server.Tasks.Rtc.{RtcApi, RtcLaws}
use tiny_media_server.Worker.State.{Env, Worker}
use tiny_media_server.Worker.Cycle.{Arrivals}
use tiny_media_server.Worker.Invariant.{EnvLaws, IsRouted}
use tiny_media_server.Worker.Invariant.Http.{IsHttp}
use tiny_media_server.Server.Answers.{ExtSenderLaws, answer_laws, all_requested}
use tiny_media_server.Server.Thread.{ThreadHalt, thread, thread-IsServed}
use tiny_media_server.Server.{Crates, server_env, server_laws}

-- SocketAddr::new(ip_addr, 0), and what its to_socket_addrs answers.
abbrev pub any_port : ℕ → Option (List SocketAddr)
any_port ip_addr = some (record { ip = ip_addr; port = 0 } ∷ [])

-- `UdpSocket` on linux and android.
abbrev pub send_queue : ℕ
send_queue = 2048

abbrev pub recv_queue : ℕ
recv_queue = 2048

-- `UdpSocket` on freebsd and netbsd.
abbrev pub mmsg_queue : ℕ
mmsg_queue = 1024

module _ (m : Media) (r : RtcApi m) (c : Crates m) (rtc : RtcLaws r) (ch : ExtSenderLaws m c)
    (s2 : Socket2) (ip_addr : ℕ) (ext : c.ExtSender) (bus : c.Bus) (cert : r.DtlsCert) where
  module _ (io : IoUring) (rings : Rings io) where
    abbrev pub linux_env : Env
    linux_env = server_env m r (uring_socket io recv_queue) c

    unfoldable pub linux_thread : List (Arrivals linux_env) → Outcome (Worker linux_env)
    unfolding thread UringOpening.new
    linux_thread =
        thread linux_env (UringOpening.new io rings s2 send_queue recv_queue (any_port ip_addr)) ext
          bus cert

    abbrev pub linux_laws : RingLaws io → ReadLaws io → StoreLaws io → EnvLaws linux_env
    linux_laws laws reads stores =
        server_laws m r (uring_socket io recv_queue) c rtc
          (uring_laws io laws reads stores send_queue (omega arith) recv_queue)

    -- The thread of a worker on linux, over any str0m whose sessions run dry, any socket2 and any
    -- io_uring whose new rings are unused, whose completions carry the user data of their entries,
    -- whose kernel selects one of the 16 buffers of a group, and that completes an entry only
    -- after it is submitted: given HTTP requests, it opens its socket with queues of 2048,
    -- prepares it and runs any number of cycles, to the end of the last, unless it halts as
    -- OpenPanic or CycleHalt lists: if the bus or the channel to the controller can lack room, in
    -- a wait for it that does not end, or in a panic, among which there is none for an index out
    -- of bounds nor for groups that do not come out even; it is then a routed worker, of whose
    -- socket each waiting buffer and group is one that the socket has and each packet is free or
    -- in flight, once, and it has tried to send the controller one response for each request, in
    -- the requests' order, and no other.
    pub linux_runs :
        (laws : RingLaws io) (reads : ReadLaws io) (stores : StoreLaws io)
        (fresh : FreshLaws io reads rings) (cycles : List (Arrivals linux_env))
        → All (λ (a : Arrivals linux_env). All IsHttp a.http_events) cycles
        → Ends
            (λ w.
              IsRouted linux_env (linux_laws laws reads stores) w
              × (ch.attempted w.ext_send ≡ ch.attempted ext ++ all_requested linux_env cycles))
            (ThreadHalt linux_env)
            (linux_thread cycles)
    unfolding linux_thread
    linux_runs laws reads stores fresh cycles http =
        thread-IsServed linux_env (linux_laws laws reads stores)
          (answer_laws m r (uring_socket io recv_queue) c ch) _ ext bus cert cycles
          (UringOpening.new-InBounds io rings s2 laws reads fresh send_queue (omega arith)
            recv_queue (any_port ip_addr) (omega arith))
          http

  module _ (os : OsSocket) (laws : OsLaws os) (into : s2.Socket → os.UdpSocket) where
    abbrev pub bsd_env : Env
    bsd_env = server_env m r (mmsg_socket os mmsg_queue) c

    unfoldable pub bsd_thread : List (Arrivals bsd_env) → Outcome (Worker bsd_env)
    unfolding thread Mmsg.new
    bsd_thread = thread bsd_env (Mmsg.new os s2 into mmsg_queue (any_port ip_addr)) ext bus cert

    abbrev pub bsd_laws : EnvLaws bsd_env
    bsd_laws =
        server_laws m r (mmsg_socket os mmsg_queue) c rtc
          (mmsg_laws os laws mmsg_queue (omega arith))

    -- The thread of a worker on freebsd, over any str0m whose sessions run dry, any socket2 and
    -- any operating system whose receives use up what has arrived and whose sends bring nothing:
    -- given HTTP requests, it opens its socket with a queue of 1024 datagrams and runs any number
    -- of cycles, to the end of the last, unless it halts as OpenPanic or CycleHalt lists: in a
    -- panic, or, if the bus or the channel to the controller can lack room, in a wait for it that
    -- does not end; it is then a routed worker, of whose socket the entries hold some list of
    -- datagrams, in order, and it has tried to send the controller one response for each request,
    -- in the requests' order, and no other.
    pub bsd_runs :
        (cycles : List (Arrivals bsd_env))
        → All (λ (a : Arrivals bsd_env). All IsHttp a.http_events) cycles
        → Ends
            (λ w.
              IsRouted bsd_env bsd_laws w
              × (ch.attempted w.ext_send ≡ ch.attempted ext ++ all_requested bsd_env cycles))
            (ThreadHalt bsd_env)
            (bsd_thread cycles)
    unfolding bsd_thread
    bsd_runs cycles http =
        thread-IsServed bsd_env bsd_laws (answer_laws m r (mmsg_socket os mmsg_queue) c ch) _ ext
          bus cert cycles
          (Mmsg.Laws.new-Holds os laws mmsg_queue (omega arith) s2 into (any_port ip_addr)) http

    abbrev pub other_env : Env
    other_env = server_env m r (plain_socket os) c

    unfoldable pub other_thread : List (Arrivals other_env) → Outcome (Worker other_env)
    unfolding thread Plain.new
    other_thread = thread other_env (Plain.new os s2 into (any_port ip_addr)) ext bus cert

    abbrev pub other_laws : EnvLaws other_env
    other_laws = server_laws m r (plain_socket os) c rtc (any_state os laws)

    pub other_runs :
        (cycles : List (Arrivals other_env))
        → All (λ (a : Arrivals other_env). All IsHttp a.http_events) cycles
        → Ends
            (λ w.
              IsRouted other_env other_laws w
              × (ch.attempted w.ext_send ≡ ch.attempted ext ++ all_requested other_env cycles))
            (ThreadHalt other_env)
            (other_thread cycles)
    unfolding other_thread
    other_runs cycles http =
        thread-IsServed other_env other_laws (answer_laws m r (plain_socket os) c ch) _ ext bus cert
          cycles (Plain.new-Ends os s2 into (any_port ip_addr)) http
