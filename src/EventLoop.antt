-- ===== src/EventLoop.antt =====
-- mtnet/EventLoop.h and mtnet/EventLoop.cc: the loop of one thread, the queue of functors that other
-- threads add to, and the eventfd that wakes the loop. A functor is a number. The loop's thread goes
-- through phases; what the callbacks and functors do, and what other threads do at the same time,
-- are steps of their own, so that every interleaving of them is a sequence of steps.
pub mod Defs
pub mod Steps
pub mod Wakeup
pub mod Quit
pub mod Iterate
pub mod Construct
pub mod Constructed
pub mod BeforeLoop
pub mod Order
mod Tests
