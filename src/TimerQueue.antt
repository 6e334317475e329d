-- ===== src/TimerQueue.antt =====
-- mtnet/Timer.h, mtnet/TimerId.h, mtnet/TimerQueue.h and mtnet/TimerQueue.cc: timers in a
-- `std::set` of pairs of expiration and address, and the timerfd that is armed for the first.
pub mod Defs
pub mod Order
pub mod Timespec
pub mod Queue
pub mod Expired
pub mod Reset
pub mod Handle
pub mod Timers
pub mod Destroy
mod Tests
