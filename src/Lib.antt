-- ===== src/Lib.antt =====
-- yy, a network library in C++: a verification of its core.
--
-- The program serves connections from event loops. A loop waits in its poller, calls the callbacks of
-- the handlers that are ready, and then the functions that other threads have given to it; timers and
-- connections have such handlers. Bytes that a socket delivers go into the TcpBuffer of a connection;
-- a codec or the HTTP parser takes messages out of its readable bytes through stringPiece views; the
-- HTTP router hands a request to a handler, whose response is encoded into bytes again.
--
-- TcpBuffer and its children: Net/include/TcpBuffer.h and Net/src/TcpBuffer.cpp. A buffer is a record
--   of its storage and its two indices (buffer_, read_index_, write_index_, prepend_size_); each method
--   is a function to the new record, where `none` is a failed assertion or an exception. Inv has the
--   index invariant, Contents the methods as operations on the readable bytes, Refine their sequences
--   against a queue of bytes, Fd appendFormFd, Marks the methods that move one index or look further.
-- StringPiece: Common/stringPiece.h. A view is an array and two indices. Scan has the loops, Words
--   eatWord, eatLine and trimSpace, Order the comparisons, Split split.
-- Codec: Net/src/Codec.cpp. Line is LineCodec, Length is LengthCodec, View both on readView.
-- Http: Net/HTTP/http.h and http.cpp. Fields is the map of headers with the C library's number
--   conversions, Message HttpMsg (tryDecode_ in its parts), Request HttpRequest with parseUrlParams,
--   Response HttpResponse, Router HttpRouter, Parser HttpParser, and Server the onMessage of
--   Net/HTTP/HttpServer.h, which is given the bytes of the receive buffer; Client is HTTPClient of
--   Net/HTTP/HttpClient.h.
-- TimerWheel: Net/include/TimerWheel.h and Net/src/TimerWheel.cpp, with Net/include/Timer.h. A slot
--   is the list of its nodes, the callbacks are recorded, and an interval is cast to int. Walk has
--   the loop of tick, Due the ticks that go by until a node fires, Runs several ticks.
-- LockFreeQueue: Common/LockFreeCurcularQueue.h. A thread is a place in the code with its locals, and a
--   step is one access to shared memory. Inv has the invariant and, in its children, that every step
--   keeps it; Ring the mask, Safety what holds in every interleaving, Alone and Refine calls that do
--   not overlap, Single the ring of one slot.
-- Event, EventHandler: Net/include/Event.h and EventHandler.h, Net/src/EventHandler.cpp, and the methods
--   of Net/Poller/Epoll.cpp that keep what a handler asks for. A set of events is a number with bits.
-- EventLoop: Net/src/EventLoop.cpp and Net/include/EventLoop.h. Pending has doPendingFunctions, Wakeup
--   the steps of the loop and of another thread that calls submit.
-- TcpConnection: Net/src/TcpConnection.cpp and Net/include/TcpConnection.h, over the buffers and the
--   handler. Send has sendInLoop, Drain handleWrite until the buffer is empty, Close disconnect and
--   handleClose, Read handleRead and handleETRead.
-- TcpConPool: Net/include/TcpConPool.h, the connections that are used again. Reuse follows one of them.
-- TcpClient: the Connector of Net/src/TcpClient.cpp. Laws has its events, Backoff its attempts.
-- TimerQueue: Net/include/TimerQueue.tpp. The std::set of entries is a sorted list, a pointer to a
--   timer a positive number. Due has getDueTasks, Run and Runs handlerRead, Stale what follows from
--   the old times, Insert insertInLoop, Valid when a queue is in order and what a callback leaves
--   alone.
-- ThreadPool: ThreadPool/ThreadPool.tpp and BaseTask.cpp, as steps of any number of threads. Places
--   counts where a task stands, Once has the invariant.
-- Prelude: shared names, `size_t` arithmetic modulo 2^64, lists, slices of arrays, `int`.
--
-- Bytes are natural numbers. Sizes wrap at 2^64 where the code computes with `size_t`; the largest
-- vector has 2^63 - 1 bytes. An `int` result is an integer after the wrap at 2^32. Loops over a view
-- recur on the bytes left; the header loop and the argument loop take fuel, one more than the length
-- of the input, which is enough.
--
-- The timer wheel recurs on the nodes of a slot, and its runs on the number of ticks; a failed
-- assertion on the count of a timer is `none`.
--
-- Positions of the lock-free queue are taken not to reach 2^63; its accesses are in one order that all
-- threads see. A loop of a call that does not overlap takes the list of the rounds it may make, each with
-- whether `compare_exchange_weak` fails for no reason in it; one round more than these failures is
-- enough in a ring of two slots or more. `onMessage` takes as many rounds as there are whole requests, and one more.
--
-- `handleETRead` makes at most a hundred rounds that read bytes, as in the code, and recurs on the
-- answers of `readv`; when they are used up the socket says EAGAIN. `connectInLoop` recurs on the
-- answers of `connect`, and is `none` when it would go on without one. `modifyTimerfd` takes fuel: one
-- round is enough while `timerfd_settime` succeeds. Time is a number, and does not wrap.
--
-- Parameters: `readv` is a function from the room that it is offered to what it read; what `send`,
-- `recv`, `connect` and `timerfd_settime` answer and what the clock shows are arguments. Handlers of
-- routes are arbitrary functions, and so are the callbacks of a connection, of the functions that wait
-- in a loop, of the requests of the HTTP client and of the timers of TimerQueue; a theorem about them
-- says what it asks of them. The callbacks of the timer wheel are only recorded, and do nothing to it;
-- so is the callback of TcpClient, of which the model knows whether it is there. The queue of moodycamel is a record
-- of operations whose laws say that one thread gets out of it what was put in, in order.
--
-- Not modelled: system calls, logging, locks, the RPC layer over protobuf, UDP, the copies of other
-- projects' libraries, the pollers Poll and Select, the server with its acceptors and its pools of loops, and
-- the monitor of the thread pool. A connection is not freed: the callback that lets it go
-- is one more function on it.
pub mod Prelude
pub mod Event
pub mod EventHandler
pub mod TcpBuffer
pub mod StringPiece
pub mod EventLoop
pub mod TcpConnection
pub mod TcpClient
pub mod TcpConPool
pub mod Codec
pub mod Http
pub mod TimerWheel
pub mod TimerQueue
pub mod LockFreeQueue
pub mod ThreadPool
