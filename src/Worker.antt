-- ===== src/Worker.antt =====
-- src/worker.rs: one worker thread. `State` has its records, `PopTask` the loop that carries out
-- what a task says, `Inbox` the three ways in (bus, HTTP, timers), `Udp` the datagrams, `Ended` the
-- removal of tasks, `Cycle` the cycle. The other children are proofs.
pub mod State
pub mod PopTask
pub mod Answers
pub mod Ids
pub mod Inbox
pub mod Udp
pub mod Ended
pub mod Cycle
pub mod Invariant
