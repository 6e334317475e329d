-- ===== src/Lib.antt =====
-- mtnet is a C++ network library in the reactor style: a loop per thread waits for events on file
-- descriptors and for timers, and calls the handlers of connections. This development models its
-- core. Paths are from the root of the repository.
--
-- Prelude: names of the libraries, Boolean tests, lists, options and maps, signed integers (Prelude.Int,
--   Prelude.Maps, Prelude.Decimal), and `Result`, whose errors are a failed `assert`, a
--   `std::length_error`, an `abort`, and an access outside a vector or through a null or dangling
--   pointer.
-- Buffer: mtnet/Buffer.h and mtnet/Buffer.cc. A vector of bytes with a read and a write index. The
--   sizes are 64-bit numbers that wrap round; the vector holds at most 2^63 - 1 bytes. The bytes
--   between the indices, `contents`, are the abstract view of a buffer.
-- Channel: mtnet/Channel.h and mtnet/Channel.cc. The wanted events of a descriptor as bits, and the
--   dispatch of the events that occurred. The callbacks are functions of the whole state.
-- Poller: mtnet/Poller.h and mtnet/Poller.cc. The array for poll(2), the map from descriptors to
--   channels, and the channels themselves, in a store by address, since a channel knows its index in
--   the array and the poller changes it.
-- Timestamp: base/Timestamp.h and base/Timestamp.cc, in microseconds; Timestamp.Print has the texts,
--   with `gmtime_r` as a parameter, over the decimal digits of Prelude.Decimal.
-- TimerQueue: mtnet/Timer.h, mtnet/TimerQueue.h and mtnet/TimerQueue.cc. A `std::set` of expirations and
--   timers, as a sorted list, the timers in a store by address, and the timerfd; with runAt, runAfter
--   and runEvery of mtnet/EventLoop.cc (TimerQueue.Timers). The type of the intervals, their sign and
--   their conversion are parameters, and so is what a callback does to the queue.
-- EventLoop: mtnet/EventLoop.h and mtnet/EventLoop.cc. The loop with its queue of functors, `quit_` and
--   the eventfd. EventLoop.Steps has all interleavings of the loop's thread with other threads, which
--   push under the mutex and write to the eventfd in two separate steps. A step of the loop's thread is
--   the return of `poll`, the read of the eventfd, the swap of the queue, one functor, or the end of a
--   round. EventLoop.Quit runs the loop's thread alone, step by step, and
--   EventLoop.Construct builds a loop with its poller and its two first channels. EventLoop.Iterate is
--   one poll with the events that it finds.
-- Sync: base/Mutex.h and base/Condition.h, over pthread, which is a parameter: its calls are relations
--   between the states before and after, with what POSIX says of them as laws. Sync.Monitor is a value
--   that has them.
-- EventLoopThread: mtnet/EventLoopThread.h and mtnet/EventLoopThread.cc. The handshake between
--   `startLoop` and the new thread, in all interleavings, to the end of the new thread, and the
--   destructor; EventLoopThread.Locked has the handshake lock by lock and signal by signal, up to the
--   new thread's `loop()`, and relates it to the coarse one.
-- EventLoopThreadPool: mtnet/EventLoopThreadPool.h and mtnet/EventLoopThreadPool.cc. The loops that
--   connections are dealt out to.
-- TcpServer: mtnet/TcpServer.h, mtnet/TcpServer.cc, mtnet/Acceptor.h and mtnet/Acceptor.cc. The map of
--   connections by name, the connections in a store by address, and what the server hands to the loops.
--   The printing of "#%d" is a parameter. TcpServer.Life puts the server and its connections together:
--   what waits for the loops is run in any order, in between calls of the users and events, and each
--   connection goes through its phases. TcpServer.Callbacks has the users' callbacks, and
--   TcpServer.Started leads from the constructor to the runs of TcpServer.Life.
-- TcpConnection: mtnet/TcpConnection.h and mtnet/TcpConnection.cc. The state of a connection, its two
--   buffers, its wanted events, and a list of what it does outside itself. What write(2) and readv(2)
--   return is an argument. TcpConnection.Pipe is the abstract view of a connection, two queues of bytes
--   and a half-close, and TcpConnection.Refine relates the operations to it. TcpConnection.Wiring is how
--   the events of the channel reach the handlers. TcpConnection.Threads has
--   all interleavings of calls from other threads with the loop's thread, TcpConnection.Polled has
--   `sendInLoop` and `connectDestroyed` with the poller's part, and TcpConnection.Late what a call that
--   comes too late does.
-- Sockets: mtnet/SocketsOps.h, mtnet/SocketsOps.cc, mtnet/Socket.cc and mtnet/InetAddress.cc. The byte
--   order, by the bytes of numbers in memory on a host of either order; what the wrappers of system
--   calls return and log, by what the call returns; how mtnet/Acceptor.cc opens its socket; addresses as
--   text. `inet_pton` and `inet_ntop` are parameters.
-- Logging: base/Logging.h and base/Logging.cc. What is printed, by the level of the build; what
--   `vsnprintf` would write to a buffer of any size is an argument.
-- Atomic: base/Atomic.h. A counter of 32 bits.
-- Thread: base/Thread.h and base/Thread.cc. The object and the thread that it starts, in all
--   interleavings of the two; the results of `pthread_create` and `gettid` are arguments.
--
-- A connection uses two buffers and a channel; a channel's update goes through the loop to the poller;
-- the loop calls the handlers of the channels that the poller found active, one of which is the timer
-- queue's; other threads reach a connection only through the queue of its loop.
--
-- The loops of `EventLoop::loop` and `startLoop` are step relations; `loop_steps` runs the first of them
-- for a number of steps, which is bounded by the functors of the round. Decimal digits are printed with
-- the number itself as fuel. All other loops are recursions on the list that they go through or on the
-- number of rounds, so no fuel is needed. Integers of the type int64_t are unbounded, since an overflow
-- is undefined in C++; the events of a channel are natural numbers below 2^15.
--
-- In TcpServer.Life an address names one connection for ever, and the assertions of the poller are left
-- to Poller: the life follows whether poll(2) looks at a channel, which a late `sendInLoop` does not
-- change. What poll(2) may report there is a condition of the steps. The source does not synchronise
-- the test and the store of `state_` in `shutdown`; TcpConnection.Threads has them as two steps, and
-- TcpServer.Life as one: a `connectDestroyed` between the two is left out there.
--
-- Not modelled: setNonBlockAndCloseOnExec, which only the valgrind build calls, readTimerfd and
-- setTcpNoDelay, which make one system call, and `pollReturnTime_` as a field: the time of a poll is an
-- argument.
pub mod Prelude
pub mod Buffer
pub mod Channel
pub mod Poller
pub mod TcpServer
pub mod Timestamp
pub mod TimerQueue
pub mod EventLoop
pub mod EventLoopThread
pub mod EventLoopThreadPool
pub mod Atomic
pub mod Logging
pub mod Sockets
pub mod Sync
pub mod Thread
pub mod TcpConnection
