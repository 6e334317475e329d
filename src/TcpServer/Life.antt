-- ===== src/TcpServer/Life.antt =====
-- The life of the connections, over mtnet/TcpServer.cc, mtnet/TcpConnection.cc and the loops.
pub mod Defs
pub mod Effects
pub mod Sending
pub mod Writing
pub mod Closing
pub mod Calls
pub mod Phases
pub mod Established
pub mod Apart
pub mod Accepting
pub mod Requests
pub mod Removals
pub mod Using
pub mod Safety
mod Tests
