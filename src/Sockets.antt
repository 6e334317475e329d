-- ===== src/Sockets.antt =====
-- mtnet/SocketsOps.h and SocketsOps.cc, mtnet/Socket.h and Socket.cc, mtnet/InetAddress.h and
-- InetAddress.cc, and base/Logging.h and Logging.cc, which they report their errors to. What a system
-- call returns is an argument of the function that calls it.
pub mod ByteOrder
pub mod Defs
pub mod Accept
pub mod Address
pub mod Listen
mod Tests
