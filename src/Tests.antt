-- ===== src/Tests.antt =====
-- The theorems at concrete inputs, over a small str0m, socket and set of channels that run.
mod Bench
mod SenderBench
mod ControllerTests
mod SystemBench
mod MainTests
mod SystemTests
mod NetTests
mod WireTests
mod RingTests
mod RingBench
mod MultishotTests
mod PlatformTests
mod ServerTests
mod RelayTests
mod RoomTests
mod WorkerTests
mod TaskTests
