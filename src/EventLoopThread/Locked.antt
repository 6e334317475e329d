-- ===== src/EventLoopThread/Locked.antt =====
-- mtnet/EventLoopThread.cc, with base/Mutex.h and base/Condition.h, at each step of its two threads.
pub mod Defs
pub mod Invariant
pub mod CallerMoves
pub mod WorkerMoves
pub mod Rank
pub mod Progress
pub mod Refine
mod Tests
