-- ===== src/Lib.antt =====
-- libeventdisp: an event dispatcher library, and the parts of its web server that run on it.
--
-- The library runs tasks on event-loop threads. An `EventDispatcher` (lib/event_dispatcher.cc) has
-- one queue and one thread; an `MPEventDispatcher` (lib/mp_event_dispatcher.cc) has several and
-- sends all tasks of a group to one of them; a `DelayedTask` (lib/delayed_task.cc) hands a task
-- over when a timer runs out. The web server keeps files in a `Cache` (webserver/cache.cc), whose
-- free list is a `FastFIFO` (webserver/fast_fifo.h).
--
-- EventDispatcher models lib/unit_task.cc and lib/event_dispatcher.cc. Its record has the fields of
-- the class, the position of the event-loop thread (`Pc`), and histories that only the statements
-- read. `Step` is one method call by any thread or one move of the event loop, which is cut at its
-- two locked blocks, at the test of `isDying_` between them and at the call of the task. A call of
-- `enqueueTask` is two steps, the test of `isStopped_` and the push: it holds `queueMutex_` all the
-- time, but `stop`, `resume` and the destructor, which take another mutex, may come between.
-- `Reach` is any sequence of steps. A task's closure is a number. Group counts are `size_t`, modulo
-- 2^64.
--
-- MpEventDispatcher models lib/mp_event_dispatcher.cc on top of it, without USE_HASHING (Table) and
-- with it, which is how lib/Makefile builds it (Hashed); the hash function is a parameter. A null
-- task, a remainder by zero and an index out of range are `crash`. A call of its `enqueueTask` is
-- one step, the call that it makes included: nobody stops the dispatchers it enqueues to.
--
-- FastFifo models webserver/fast_fifo.h: Defs has the nodes on a heap, with each read through a bad
-- pointer a crash and the address that `new` returns a parameter; Spec has the list that a queue
-- stands for; Refines and Destroy relate them, on the lemmas of Chain, Pushing and Removing.
--
-- Cache models webserver/cache.h and webserver/cache.cc. Keys are numbers that stand for the
-- contents of the C strings; the hash function is in Hash. Callbacks are numbers that are logged
-- when they are called and deleted, and a call of a deleted one is a crash. The free list is the
-- list of FastFifo.Spec. Protocol and Cancelled have the sequences of calls that the web server
-- makes for a key that is missing; FreeList, Kept, Moves, Evict, Preserves and Uses relate the
-- reference counts to the free list in a cache that is used as it is meant to be, Shrinks and
-- Content say what data an entry has, and Destroy has the destructor. `deallocate` runs after
-- `erase`, so what it reads is a parameter, `reread`.
--
-- DelayedTask models lib/delayed_task.cc, with the results of the timer calls as parameters. A
-- method that is called on a destroyed object is a `crash`.
--
-- AioWrapper models lib/aio_wrapper.cc, polled and with LIBEVENT_USE_SIG: each function is the list
-- of what it enqueues and deletes; the results of the aio calls and the value of EINPROGRESS are
-- parameters.
--
-- TcpServer models webserver/svr_tcp_ip.cc: the listening connection, the accepted connections
-- whose parent it is, and the count that their constructors and destructors keep; the results of
-- the socket calls and of `svr_http_read` are parameters. Main and Program model
-- webserver/websvrd.cc on top, as far as a list of arrivals goes.
--
-- Http models webserver/svr_http.cc and webserver/svr_http.h for one connection. Text has the C
-- strings and the texts of the answers; Package has the packages (`HPKG`) on a heap, where a read
-- through a null or deleted one is a crash, and the state of the connection with what is pending: a
-- task of the dispatcher, a transfer, or a callback in the cache. Parse, Serve and Final have the
-- handlers, which keep their names without `svr_http_`; Steps says which handler a pending call
-- runs. What the cache and the system answer is a parameter (`Env`). Requests, Lines and RoundTrip
-- are about the parser, Status about the answers, Chain and Serial about all states that a
-- connection can come to, and Stream about the bytes of a file on the socket. Keys is about the
-- texts under which the cache keeps headers and parts of bodies, and Ask makes the calls of the
-- server on the model of the cache, whose answers `Env` has as a parameter. The root package reads
-- the requests; each GET line is a package behind its siblings, and one of them at a time is
-- answered.
--
-- Dispatcher models lib/dispatcher.cc: the singleton in its two modes, on top of the two models.
-- Semaphore models the class of that name in lib/inc/lock.h, with the overflow of its `int` as a
-- crash.
--
-- Copy models sample/copy.cc: the program up to its loop, its callbacks, and the two transfers as
-- steps.
--
-- Base has the shared library: the names passed on, tests, fallible results (`Outcome`), list
-- lemmas.
--
-- Loops recurse on the list they walk, but for three on fuel: the loop of `HashCharPtr`, with 17,
-- since a turn reads at least one of 16 characters, that of `svr_http_parse`, with the number of
-- bytes that were read, since a turn passes at least one, and that of the destructor of `FastFIFO`,
-- with one more than the nodes, since a turn pops one. `Shutdown.loop_steps` takes the number of
-- moves as an argument.
--
-- Not modelled: pthread itself (a mutex is the atomicity of a step, or a step that waits), real
-- time, the helpers in webserver/svr_common.cc, the debug output, callbacks that call the cache
-- again, and the tests, benchmarks and googletest.
pub mod Base
pub mod EventDispatcher
pub mod FastFifo
pub mod Cache
pub mod MpEventDispatcher
pub mod DelayedTask
pub mod AioWrapper
pub mod TcpServer
pub mod Dispatcher
pub mod Semaphore
pub mod Http
pub mod Copy
