-- ===== src/TcpConnection.antt =====
-- mtnet/TcpConnection.h and mtnet/TcpConnection.cc: one connection, its state, its two buffers and the
-- events that its channel wants. What `write(2)` and `readv(2)` do is an argument of the operations
-- that call them. What an operation does outside the connection is a list of effects, in order. The
-- callbacks that an operation runs are its last act, so that what they do in turn is the next
-- operation.
pub mod Defs
pub mod Stream
pub mod Send
pub mod Write
pub mod Shutdown
pub mod Pipe
mod Balance
pub mod Refine
pub mod Polled
pub mod Late
pub mod Threads
pub mod Callbacks
pub mod Wiring
mod Tests
