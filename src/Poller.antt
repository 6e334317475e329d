-- ===== src/Poller.antt =====
-- mtnet/Poller.h and mtnet/Poller.cc: the array handed to poll(2), and the map from descriptors to
-- channels. The state holds the channels too, by address, since the poller writes their `index_`
-- and `revents_`. An entry with a negative descriptor, -fd - 1, is one that poll(2) ignores.
-- `assertInLoopThread` only logs, so it is no part of the model.
pub mod Defs
pub mod Invariant
pub mod Update
pub mod Interests
pub mod Swap
pub mod Remove
pub mod Active
pub mod Polling
pub mod Unregister
pub mod Samples
mod Tests
