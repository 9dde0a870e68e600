-- ===== src/Lib.antt =====
-- The native code of feng-shui: C libraries under a Dart runtime, for executors that talk over
-- io_uring, memory for input and output, and a network and file transport.
--
-- The parts and how they interact. An executor (executor/native/executor/executor.c, executor.h)
-- owns a ring. It calls other executors, and answers them, by messages on rings; a message carries
-- the address of a task. One scheduler thread (executor/native/scheduler/scheduler.c) watches the
-- rings of all executors that register with it, and posts to the Dart port of one whose ring has
-- completions. The transport (transport/native/transport/transport.c) puts reads, writes, messages,
-- connects and accepts on the ring of an executor, and keeps each of them in a table until it
-- completes, times out or is cancelled; its buffers are handed out by the static buffers
-- (memory/native/memory/static_buffers.h). The storage (storage/native/storage) is another such
-- executor: its loop runs the tasks that arrive on its ring, by the handlers of box.c, which call the
-- database Tarantool, and answers each of them. Errors are events (core/native/events).
-- core/native has what all of them use.
--
-- Prelude: Boolean tests, lists and cells of memory, words and bits, integers; Waits has how a loop
--   around a wait may end.
-- Numbers: core/native/numbers/numbers.h. Smear and Rounding have its proofs.
-- PointerArray: core/native/arrays/pointer.h, a record of the struct with the block as a list of
--   cells. Whether an allocation is granted, and what fresh memory holds, are parameters.
-- StaticBuffers: memory/native/memory/static_buffers.h, with the free ids as the list of cells in
--   use. Sessions has clients that take and give back buffers.
-- Uring: liburing, which is not part of the repository, as a record of operations and laws; Bounded
--   is a ring that meets them.
-- Executor: executor/native/executor/executor.c, executor.h, task.h and constants.h. Delivery has
--   calls and answers, Awaking the time between executor_awake_begin and executor_awake_complete,
--   Ids the ids that threads ask for (module.h), step by step.
-- Scheduler: executor/native/scheduler/scheduler.c, one function for each kind of completion, and
--   the round over those that are ready. Memory that holds executors is a parameter. Starting has
--   the start and the whole shutdown, as the calls of pthread that are made; Awaiting has the loop
--   around a wait, which both share.
-- EventMap: the table of core/native/maps/simple.h that transport/native/transport/maps.h declares,
--   a parameter, since it comes from another project; Slots meets its laws.
-- Transport: transport/native/transport/transport.c. Requests has the operations that start
--   something, Endings those that end something, Setup the start; Ready is the invariant of the
--   message headers, Sweeping what a loop over the table does.
-- Sockets: transport/native/transport/socket.c, client.c, server.c. The options of a socket are a
--   table for each kind of socket, which one loop walks; the kernel is a function of the calls made
--   so far. Settings has the tables, Outcomes the flag, level and value of each option, Endpoints
--   the clients and servers, Multicast the groups.
-- Files: transport/native/transport/file.c, the options with which a file is opened.
-- Tarantool: the database and msgpuck, which are not part of the repository, as a record of
--   operations and laws; Recorder is one that meets them.
-- Box: storage/native/storage/box.c and box.h. A request is a record; what its pointers point to are
--   lists of bytes, with places in them for the pointers that move. Single, Many, Values and Lua have
--   the handlers, Cursors the loops of Many; Batches and Atomic have the transaction, Answers the
--   handlers for one change, Replies the block of a script.
-- Storage: storage/native/storage/executor.c and executor.h. The methods of tasks are a parameter;
--   Rounds puts the handlers of Box in its place, and Requests follows a call from another executor.
--   The rest is of storage.c: Errors and Saying have errors and messages as events, Lifecycle the
--   start and the shutdown, Process the thread, which Launched puts beside the start. Launcher is how
--   storage/native/storage/launcher.cc ends the loop of Tarantool, which Exits follows.
-- Memory: memory/native/memory/memory.h and io_buffers.h, over the library small as a record of
--   operations and laws. Lifecycle has what is created and destroyed, also by
--   storage/native/storage/factory.c, as the list of what lives.
-- Events: core/native/events. An event is a record with the list of its fields, and the union of a
--   field is a word. Values has the setters and getters, Local the event of a thread, Format the text
--   of an event; Kinds and Reading treat all types alike, for Setting and Distinct.
-- Time: core/native/time/time.h.
-- System: core/native/system/system.c, what is done with events by default. Libraries has the
--   libraries and the environment, over memory in which a text that was freed cannot be read.
-- Stacktrace: core/native/stacktrace/stacktrace.cc, with lines that are printed as lists of bytes.
-- Crash: core/native/crash/crash.c, the handler of signals, over Events. Reports has what it prints.
-- Dart: core/native/dart/dart.c, over the interface of Dart as a record. Calls has what comes of it.
-- Context: core/native/context/context.c, with the hash table of its modules as a parameter.
--
-- Conventions. An operation takes the state and returns its code with the new state; `none`,
-- `fault` or a constructor of that name is undefined behaviour of the C code, so that a theorem
-- that gives a result also shows that there is none. A pointer is a number, 0 for NULL, where what
-- lies behind it is not read. Unsigned words wrap round as in C, and in Time a signed overflow is
-- undefined. A call of the C library, of Dart or of the kernel is a parameter or, where it only
-- reports, left out: so are events that a failure raises and what is printed.
--
-- Fuel. Loops over lists are recursions on them.
-- The loop of executor_scheduler_provide_sqe, which waits, gets two tries: after one
-- submission the queue of a ring is empty and has room, so the second cannot fail. The loops of
-- time_normalize get as many turns as there are whole seconds in the nanoseconds, and one more.
-- storage_executor_stop waits for another thread, and gets the rings that it finds while it waits;
-- so does every loop around pthread_cond_timedwait, which gets the result of each wait.
--
-- Not modelled. core/native/hashing, core/native/maps and core/native/lists are copies from other
-- projects. Printing, the installation of signal handlers and module loading only report or call
-- the system. Freeing memory is modelled only in Memory/Lifecycle and System/Libraries. Of the
-- storage, the rest of launcher.cc sets up Tarantool by calls of it. Of locks, only the calls of
-- pthread and what they give are modelled, and that one thread acts while the other waits.
mod Prelude
pub mod Numbers
pub mod Context
pub mod PointerArray
pub mod StaticBuffers
pub mod Uring
pub mod Executor
pub mod Scheduler
pub mod EventMap
pub mod Sockets
pub mod Files
pub mod Transport
pub mod Tarantool
pub mod Box
pub mod Events
pub mod Storage
pub mod Time
pub mod Memory
pub mod System
pub mod Stacktrace
pub mod Crash
pub mod Dart
