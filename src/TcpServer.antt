-- ===== src/TcpServer.antt =====
-- mtnet/TcpServer.h, mtnet/TcpServer.cc, mtnet/Acceptor.h and mtnet/Acceptor.cc: new connections are
-- named, dealt out to the loops, and forgotten when they close.
pub mod Defs
pub mod Names
pub mod Connections
pub mod Life
pub mod Callbacks
pub mod Started
mod Tests
