-- ===== src/Lib.antt =====
-- A model of the core of this C++ server framework, and proofs about it.
--
-- ByteArray is the serialisation buffer (yuan/bytearray.cc, yuan/bytearray.h, yuan/endian.h), a
-- linked list of nodes of one size.
--   * ByteArray/Memory models its storage: the constructor, clear, addCapacity, write, read in both
--     overloads, setPosition and toString. The list of nodes is the list of their contents, a node
--     pointer an index into it, and null is `none`. `Result` has one constructor for a value, one
--     for a thrown std::out_of_range, and `fault` for a null pointer that is followed. The loops of
--     write and read take the number of bytes as fuel, which is enough since each round moves one.
--   * ByteArray/Codec models the formats on top of it: integers of fixed width in both byte
--     orders, zigzag, integers of variable length, strings behind a length. The machine's byte
--     order and its bswap functions are the parameter `Host`. The loop of writeUint32 and
--     writeUint64 takes as fuel the room in `tmp`, and `none` is a write behind its end.
--   Integers are natural numbers; where the code's arithmetic can wrap, the wrap is written out.
--   The sizes of an array stay below 2 ^ 64.
--
-- Http is the message layer (yuan/http).
--   * Http/Method models the tables of methods and status codes and their conversions (http.h,
--     http.cc). An enumerator is its number.
--   * Http/Headers models the maps of headers, parameters and cookies with the order that ignores
--     case, as lists of pairs in that order. boost::lexical_cast is a parameter.
--   * Http/Servlet models the servlet dispatch (servlet.cc). fnmatch and a servlet's handle are
--     parameters.
--   * Http/Cstring models the functions of <string.h> that this layer calls, in the C locale.
--
--   * Http/Receive models recvResponse (http_connection.cc) and recvRequest (http_session.cc). The
--     parsers and the stream are interfaces, and a buffer is the list of its bytes that are not
--     parsed yet. A loop takes one round of fuel for each byte to come and one more, which is enough
--     since each round reads a byte. A throwing std::string and the overflow of an int are results of
--     their own.
--   * Http/Server models handleClient of HttpServer (http_server.cc) over recvRequest, the servlet
--     dispatch and sendResponse. Its loop takes one round for each byte to come and one more, which
--     is enough since each request takes a byte. The constructor of HttpResponse, its toString and
--     the servlets, which may change the request, are parameters.
--   * Http/Dump models dump of requests and responses (http.cc) as the text that it writes. How a
--     stream prints a number is a parameter.
--   * Http/Request models the headers that DoRequest (http_connection.cc) gives a request.
--   * Http/Pool models the pool of connections: getConnection and ReleasePtr. Whether a new
--     connection can be made is an argument.
--
-- IoManager is the event table of yuan/iomanager.cc: which events of which descriptors are
-- registered, for which task, and what is scheduled when they are triggered.
--   * IoManager models the contexts, triggerEvent and resizeFdContexts, IoManager/Add models
--     addEvent, and IoManager/Remove models delEvent, cancelEvent, cancelAll and what idle does with
--     one event that epoll_wait reports. IoManager/Invariant says when the table is well formed.
--   * The answers of epoll_ctl are a parameter. Schedulers, fibers and callbacks are numbers, and
--     the calls of Scheduler::schedule a list. A failed assertion and an index behind the end of a
--     vector are results of their own. A descriptor is not negative.
--
-- Stream is readFixSize and writeFixSize of yuan/stream.cc. The virtual read and write of
-- yuan/stream.h are an interface: their functions, and that they move at most what they are asked
-- to. The loops take the length as fuel, which is enough since each round moves a byte at least.
--
-- Timer is Timer and TimerManager of yuan/timer.cc. A timer is an object of a store under its
-- address, and the std::set of timers the list of addresses in the order of Timer::Comparator.
--   * Timer models the member functions, Timer/Expiry listExpiredCbs. The clock, the address that
--     `new` returns and the address of listExpiredCbs's own timer are arguments; times wrap at
--     2 ^ 64. erase of an iterator at the end of the set is a result of its own.
--   * Timer/Order holds the lemmas on the set, and Timer/Laws the invariant of a TimerManager.
--
-- Fiber is Fiber of yuan/fiber.cc: the states of a fiber, and which fiber of a thread runs. A call of
-- swapcontext that gives up control ends a function of the model, and what comes after it in the
-- other context is the next step.
--
-- Scheduler is Scheduler of yuan/scheduler.h and yuan/scheduler.cc, with threads interleaved.
--   * Scheduler models the queue, the constructor, start and stop, Scheduler/Queue how run takes a
--     task. Scheduler/Run cuts run at its locks, atomic counters and switches of fibers, each
--     section a function of the shared state and the worker.
--   * Scheduler/System is the step relation of the workers, with calls of schedule and stop in
--     between; its child modules hold the invariant and the proof that every section keeps it.
--   * What the code of a fiber does between its switches is any sequence of these steps. A worker
--     whose assertion fails stays where it is, while the others of the model go on.
--
-- Address is the comparison of addresses, the networks of IPv6 addresses, and UnixAddress, of
-- yuan/address.cc. An address is its bytes; an index beyond an array is `none`, and so is the
-- std::logic_error of a path that is too long.
--
-- FdManager is the table of descriptors of yuan/fd_manager.cc. fstat is a parameter: whether a
-- descriptor is a socket.
--
-- Hook is yuan/hook.cc, the functions that stand before the system's.
--   * Hook models do_io and connect_with_timeout over IoManager and Timer. The system's answers are a
--     list, and each sleep of the fiber a round: what the others do meanwhile, and whether the timer of
--     the call has run. The loops consume these lists, and a call that uses them up is `starved`.
--   * Hook/Sleep models sleep, usleep and nanosleep, Hook/Sockets socket, accept and close, Hook/Flags
--     fcntl, ioctl and setsockopt, with the file status flags of the system as an interface.
--
-- Log is the logging of yuan/log.cc, yuan/log.h and yuan/log_config.h.
--   * Log/Pattern models LogFormatter: the loops of init and what the items print. The outer loop
--     takes one round of fuel for each byte of the pattern, which is enough. strftime and the
--     printing of integers are parameters.
--   * Log/Loggers models the loggers, the appenders and the file of a FileLogAppender, Log/Listener
--     the listener on the configuration. An appender is part of one logger, and m_root is the logger
--     "root" of the manager.
--
-- Config is Config and ConfigVar of yuan/config.h and yuan/config.cc: ListAllMember, LoadFromYaml,
-- fromString and setValue with its listeners. A node is what the code asks yaml-cpp for; the
-- conversion from text, the equality of values and the printing of a node are parameters.
--
-- TcpServer is TcpServer of yuan/tcp_server.cc: bind, start, stop and its job, and the rounds of
-- startAccept. What bind, listen and accept of a socket return is an argument.
--
-- Base holds the shared library names and the lemmas on Boolean tests, lists, division and bits.
-- The modules called Tests hold runs of the code and the theorems at concrete inputs.
--
-- Not modelled: yaml-cpp and the conversions of its nodes, system calls, threads and
-- their locks (an operation under a lock is one step), and the parsers that Ragel generates.
pub mod Base
pub mod ByteArray
pub mod Http
pub mod IoManager
pub mod Stream
pub mod FdManager
pub mod Timer
pub mod Fiber
pub mod Scheduler
pub mod Address
pub mod Hook
pub mod Log
pub mod TcpServer
pub mod Config
