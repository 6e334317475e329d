-- ===== src/Thread.antt =====
-- base/Thread.h and Thread.cc: the life of one thread and of the object that owns it.
pub mod Defs
pub mod Steps
pub mod Reaped
mod Tests
