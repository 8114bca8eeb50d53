-- ===== src/Lib.antt =====
-- The verification library of communicate-between-processes: the lock-free queues that its processes
-- and threads talk through, the scheduling of a disk, the small language Kaleidoscope and a text editor.
--
-- The parts of the program and the files that model them:
--
-- Core - libs/core/include/core/error_code.hpp, the errors of the queues.
--
-- LockFree - libs/lock_free. `RingBuffer` is ring_buffer.hpp, a queue in an array between two atomic
-- indices; `MessageRingBuffer` is message_ring_buffer.hpp, the same over bytes, with the size of each
-- message before it. Both are records of their members; an operation takes the record and returns its
-- result and the new record. An operation that other threads may interrupt is cut where they can come
-- in between: `try_push_from` and the like take the index that was loaded before. `Atomic` is the
-- compare-and-exchange. `GroupNotifier` is group_notifier.hpp, with the threads that wait in its state:
-- an event moves one of them between two accesses of the counter, and a schedule is a list of events.
-- `SpinLock` is spin_lock.hpp with its users, in the same way. `BoundedQueue` and `Runs.run_messages` say
-- what a client may expect of the queues, and model no code; `Circular`, `Copying`, `Wrapping`, `Arcs` and `Stored` are about arrays that
-- wrap round. The memory order of the atomics is not modelled: every access is one step of one total
-- order, and the weak failures of an exchange do not occur in compare_exchange_strong. What the code
-- asks of the platform, the size of an element and the bytes of a std::size_t, is the record
-- `Platform`.
--
-- Kaleidoscope - apps/create_language/include/kaleidoscope. `BufferReader`, `Token`, `Syntax` and
-- `Lexer` are buffer_reader.hpp, token.hpp with token_formatter.hpp, abstract_syntax_tree.hpp and
-- lexer.hpp; `Parser` and `Driver` are parser.hpp. The parser reads from an interface, `TokenSource`,
-- with the two methods of the lexer that it calls; `Lexer.Source` fills it with the lexer, and
-- `Parser.Printing` with a list of tokens. A type `D` stands for double, and the record `Environment`
-- for its arithmetic and for the lookup in a flat map. The parser's state holds the lines it prints.
--
-- DiskScheduling - libs/disk_scheduling. `Disk` is disk.hpp and `Scan` scan.hpp: the seek distance, and the
-- selection of the next request on an array and on a flat set. A request is its track number, and the
-- scheduler is its direction.
--
-- TextEditor - apps/text_editor/src/main.cpp. The editor is the record of its members; the calls of the
-- terminal, and of the formatted input and output of C, are the record `Console`.
--
-- Threading - apps/threading. `HierarchicalMutex` is include/hierarchical_mutex.hpp: a method takes the value
-- of the calling thread and the mutex, and returns both or says that it throws or waits. `ThreadsafeQueue` is
-- include/threadsafe_queue.hpp as steps of threads, with their wait for the condition variable, and
-- `ParallelAccumulate` is include/parallel_accumulate.hpp, for any order of the threads.
--
-- Unix - libs/unix/include/unix. `Permissions` is permissions_builder.hpp, on the bits of a mode. `Kernel` is
-- what the library asks of the system for semaphore sets, a parameter with the laws of the manual of semop;
-- `SemaphoreSet` and `GroupNotifier` are the two classes of ipc/system_v over it, `Process` is
-- process.hpp with libs/common, and `Sample` is a system of one semaphore set. `Pipe` is ipc/posix/pipe.hpp over
-- the calls on file descriptors, a parameter too.
--
-- Buffering - apps/consumer_producer_problem. `ProcessInfo` is the creation of the processes; `Process` has the
-- roles and occupations as the steps of one process between two accesses of what processes share, and
-- `System` all processes under a schedule of such steps.
--
-- Barber - apps/sleeping_barber_problem, in the same way: `Roles`, `Shop` and `System`.
--
-- Logging - apps/create_logger: the logger that fills in placeholders.
--
-- AsyncLogger - apps/asynchronous_logger/src/main.cpp. `Buffers` is the messages, from the arguments of a log
-- call to those of printf; `Creation` is logger::create and the wait for the writers.
--
-- Database - apps/use_sqlite/src/main.cpp. `Sqlite` is what the program asks of SQLite, a parameter with what its
-- documentation says; `Statement` and `SqlDatabase` are the program's classes over it, and `Sample` is a SQLite
-- that stores the rows.
--
-- Fuel: each loop and each recursion of the lexer and the parser spends a unit of fuel on a round, and
-- the result `none` means that it ran out. The fuel chosen is one more than the characters left, or than
-- the tokens left: each round takes a character or a token. The loops of `push` and `pop` on the ring buffer
-- take two rounds when nobody interferes. The editor spends a unit on each key.
--
-- Assertions: one that fails is a result `none`, but in the lexer, where it sets a flag of the cursor.
--
-- Numbers: std::size_t is a natural number with its wrap-around at 2 ^ 64 written out; a byte or a
-- character is its code. The counter of the lock-free group notifier wraps at 2 ^ 32, and an operation on a
-- semaphore narrows its count to a short.
--
-- Not modelled: the other programs under apps/, which call the operating system or the
-- console; the threads of the asynchronous logger, whose schedules need the accesses inside the queue
-- as steps of their own; the rest of libs/unix, whose classes wrap system calls; the tests.
pub mod Prelude
pub mod Core
pub mod LockFree
pub mod Kaleidoscope
pub mod DiskScheduling
pub mod TextEditor
pub mod Unix
pub mod Threading
pub mod Buffering
pub mod Barber
pub mod Logging
pub mod AsyncLogger
pub mod Database
