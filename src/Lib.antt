-- ===== src/Lib.antt =====
-- tiny-media-server: a WebRTC SFU. A controller hands HTTP requests to worker threads; each worker
-- owns a UDP socket and the sessions ("tasks") of publishers (WHIP) and viewers (WHEP), and workers
-- exchange media and keyframe requests over a broadcast bus.
--
-- Files, and the code that they model (paths from the repository's root):
--   Io        src/io.rs                    the records and events between threads
--   Http      src/http.rs                  get_http_auth
--   Tasks     src/tasks/mod.rs             TrackMedia, the inputs and outputs, the trait WebrtcTask;
--     Str0m, Rtc                           str0m's types and calls, a parameter of everything below
--     Session                              what the two tasks have in common
--     Answers                              the requests that a task has still to answer
--     Whip    src/tasks/whip.rs            WhipServerTask; on_event and on_output are the inner
--     Whep    src/tasks/whep.rs            matches of pop_action; WhepServerTask in the same way
--     Compose src/tasks/mod.rs             ComposeTask, an implementation of the trait
--     Roles                                the laws of the trait that the worker needs
--   Net       src/net.rs                   the trait UdpSocketGeneric and its laws
--     Os                                   the operating system's socket, a parameter
--     Opening                              how the three sockets are opened; the crate socket2 is a
--                                          parameter
--     Plain   src/net/socket2.rs           UdpSocket2
--     Mmsg    src/net/socket2_mmsg.rs      UdpSocket2Mmsg; Queue, Refinement: its send queue against
--                                          a list of datagrams; Laws: as a worker's socket
--     Wire                                 what Plain and Mmsg put on the wire
--     IoUring src/net/socket2_io_uring.rs  UserData and GroupIndex; Ring: the crate io_uring, a
--                                          parameter; Socket: UdpSocket2IoUring; Slots, Sending,
--                                          Lifetime: who owns the packets of its send queue;
--                                          Receiving, Bounds: its groups and indices; Opening: `new`;
--                                          Store, Laws: as a worker's socket
--   Worker    src/worker.rs                State (records), PopTask (pop_task, pop_tasks), Inbox
--                                          (process_bus_recv, process_http, process_tick), Udp
--                                          (process_udp, get_stun_username), Ended
--                                          (pop_ended_tasks), Cycle (prepare, process_cycle);
--     Invariant                            the invariant, and that each function keeps it
--     Answers, Ids                         which requests each function answers, and the tasks' ids
--     PopTask                              Tracks: the channels of a track; Room: how much media the bus
--                                          takes
--   Server    src/controller.rs            the worker on ComposeTask, and the loop of its thread;
--                                          Answers, Offers, Ids: its requests, offers and tasks;
--                                          Relay, Keyframe: media and requests for keyframes between
--                                          the sessions of two tasks;
--                                          Thread, Platforms: the thread as a whole, over each of the
--                                          sockets that src/worker.rs chooses from
--   Controller src/controller.rs           Controller: input and pop_action; new is in System
--     Fairness                             which worker gets how many requests
--   Main      src/main.rs                  one round of the loop of main; Table: the open requests;
--                                          Answer: a worker's answer; Drain: all of them; Files: what
--                                          main serves by itself
--   System    src/main.rs, src/controller.rs: the program, as steps of the main thread and of the
--     workers. Crossbeam: the channels between them, a parameter; Accounts: the ledger of the
--     requests; Rounds, Cycles: that a round and a cycle keep it; Safety: every state reached;
--     Startup: how main starts, and how the controller is dropped
--   Prelude   outcomes, lists, equality, hash maps and addresses
--   Tests     concrete instances of the parameters, and the theorems applied to them
--
-- A call returns an Outcome: a value, a halt of its thread (a panic, with one constructor for each
-- panic!, unwrap and expect, or a wait that does not end: a broadcast on a full bus, a send on a
-- full channel), or out_of_fuel. The loops of pop_task and process_udp run on fuel: one more round
-- than the task has outputs pending, or the socket datagrams ready. The measures are part of the
-- interfaces, and their laws say that each answer of a polled session, and each datagram received,
-- uses one up; so the fuel suffices, and no result of process_cycle is out_of_fuel. The loop of
-- main over the workers' actions has one round more than there are actions in the channel when it
-- starts; those that workers add while it runs are seen by the next round.
--
-- Time is a number that each call is given where the source reads the clock. What a `while let`
-- receives from a channel in one call is a list. A HashMap is an association list; the order in
-- which it iterates is one that the list has. Numbers do not wrap: the task-id seed and request
-- ids are taken to stay below 2^64. The crates str0m, crossbeam, bus, faster_stun and tiny_http
-- are parameters; a broadcast and a send say whether they return, for a bus has 1000 places for
-- each of its readers, the broadcasting worker among them, and a channel 100; an error that the
-- source only logs has no effect. Logging and sleeping are left out.
--
-- The laws of the trait UdpSocketGeneric hold of the states of a socket that its own invariant,
-- `Holds`, picks out; the worker's invariant says that its socket is in such a state. The calls of a
-- `new` that open a socket or a ring are parameters, each of which succeeds or not.
--
-- In System a cycle of a worker takes place between two rounds of main, as a whole; the bus may give
-- a worker anything; what a round or a cycle did before it panicked is not kept, since a thread
-- that panics takes no further step. Nor has a cycle that waits for room on the bus or in the
-- channel a step: what main takes from the channel meanwhile is not modelled.
pub mod Prelude
pub mod Io
pub mod Http
pub mod Tasks
pub mod Net
pub mod Worker
pub mod Server
pub mod Controller
pub mod Main
pub mod System
pub mod Tests
