-- ===== src/Lib.antt =====
-- A MySQL connection over an event loop: timers, file descriptors, one connection driven by its
-- socket, and the readers of what the server sends.
--
-- How the parts interact. An event loop polls epoll and calls `handleEvent` of the dispatchers with
-- events; a timer queue has a dispatcher of its own, on a timerfd; a connection has one on the
-- client's socket, whose general callback is the connection's `handleEvent`, and puts functions
-- into the loop's queue. A result's array fields are read by the array parser.
--
-- Files and sources, by paths from the repository's root:
--   Prelude           names shared by all files, tests on numbers, lists
--   Utils/Hex         utils/utils.cpp: hexToBinaryString, hexToBinaryVector
--   Utils/Split       utils/utils.cpp: splitString
--   Utils/Queue       utils/MPSCQueue.h: enqueue as two steps, dequeue, the destructor
--   Event/Mask        event/EventDispatcher.cpp: the poll events and the bit operations on them
--   Event/Dispatcher  event/EventDispatcher.cpp: a dispatcher's members, handleEvent
--   Event/Poller      poll/EpollPoller.cpp: registration with epoll, poll
--   Event/Loop        event/EventLoop.cpp: queueInLoop, quit, loop, doRunInLoopFuncs
--   Event/Loop/Throws   the same file: exceptions that leave loop, and what they leave behind
--   Event/Loop/Threads  the same file: the thread of a loop, its constructor and moveToCurrentThread
--   Event/Timers      time/TimerQueue.cpp over event/EventLoop.cpp: addTimer, invalidateTimer and reset
--                     from any thread, runInLoop; in Deadlines runAt, runAfter and runEvery
--   Event/LoopThread  event/EventLoopThread.cpp: the constructor, run, loopFuncs and the destructor
--   Event/Pool        event/EventLoopThreadPool.cpp: getNextLoop, getLoop
--   Time/Timer        time/Timer.cpp: a timer and its id; howMuchTimeFromNow of time/TimerQueue.cpp
--   Time/TimerQueue   time/TimerQueue.cpp: addTimerInLoop, invalidateTimer, handleRead
--   Time/DateText     the numbers of snprintf and stol, as time/DateTime.cpp uses them
--   Time/DateTime     time/DateTime.cpp: rounding, the texts of a time and their reading; in Offset the
--                     functions that shift by the offset of the time zone, in Custom the formats of
--                     strftime
--   Db/ArrayParser    db/ArrayParser.cpp: getNext; Field::asArray of db/Field.h
--   Db/ResultImpl     MySQLImpl/MySQLResultImpl.cpp: the table kept of a stored result
--   Db/Result         db/Result.cpp, db/Row.cpp, db/Field.cpp: rows and fields; its children Fields and
--                     Value, the fields of a row and their values; ResultIterator and RowIterator,
--                     db/ResultIterator.h and db/RowIterator.h
--   Db/ConnString     db/DbConnection.cpp: the values that parseConnString reads; the loop of the constructor of
--                     MySQLImpl/MySQLConnector.cpp over its result
--   Db/Connection     db/DbConnection.h: the members and callbacks of a connection, SqlCmd
--   Db/Exception      db/Exception.h, db/Exception.cpp: the classes of errors; in Make their
--                     constructors, in Hierarchy their base classes and the handlers that catch them
--   Connector/State     MySQLImpl/MySQLConnector.cpp: the members, setEventDispatcher, handleClosed
--   Connector/Sql       the same file: the statement that execSqlInLoop builds
--   Connector/Results   the same file: outputError, startStoreResult, getResult
--   Connector/Handlers  the same file: init, handleEvent, handleTimeout, handleCmd, execSql, disconnect
-- The other files hold proofs, and the modules called Examples apply the theorems to small inputs.
--
-- State and operations. A class is a record of its members, an operation a function from the record
-- to the record, or to an outcome where the code may throw, abort or run out of rounds. Callbacks
-- of the user are not run: the calls made to them are recorded in order. Only what a timer's
-- callback asks of the queue of timers and whether it throws, and what a function queued in the loop calls on the loop,
-- are modelled, as arguments. The MariaDB client, the log, epoll, the calendar of the C library,
-- the rounding to a double and the stream that converts an
-- array's element are arguments too. What a theorem asks of them is a record of laws: `Documented`
-- for epoll, `CountsResults` and `IsStored` for the client, `IsLocal` for the calendar.
--
-- Numbers. Time is in nanoseconds, and in a date in microseconds, on unbounded numbers;
-- a timer's id wraps at 2^64. A text is the
-- list of its bytes, and a C string ends where the list does.
--
-- Fuel. A loop over iterators, as the
-- callers of a result write it, takes one for each place and one more. `getResult` and
-- `startStoreResult` call each other once for each result that is there at once: their rounds are
-- the results that the server has left, and one more. `asArray` takes a round for each byte of its
-- input and one more; `splitString` one for each byte and one more. For each of them it is proved
-- that the rounds are enough.
--
-- Not modelled: what strftime writes, which is an argument; the loop of `parseConnString`, which rests on
-- std::regex; EventLoopThread::getLoop, which no file defines, so a pool holds what it returns; the
-- doubles that delays are given in, and times after parts of a second; the creation of file descriptors; the vendored
-- client headers. MySQLConnector.h, which would declare the connection's members, is not in the repository: they are taken from their uses.
mod Prelude
pub mod Utils
pub mod Event
pub mod Time
pub mod Db
pub mod Connector
