-- ===== src/Lib.antt =====
-- The quantitative trading library: time stamps and the queues that events pass through.
--
-- Parts and files. A function keeps its C name; one that changes `*q` returns the new value beside its
-- result, and memory from `malloc` is an argument, `none` when there is none.
--   * Calendar (src/qtl_datetime.c): civil dates and Rata Die day numbers, `rdn_to_ymd`, `ymd_to_rdn`.
--     All `uint8_t`, `uint16_t` and `uint32_t` computations wrap as in C. `Ymd` is what the output
--     arguments are set to; `none` is a read outside a table.
--   * Datetime (src/qtl_datetime.c, include/qtl.h): 64-bit stamps in microseconds, `datetime_decode`,
--     `datetime_to_tm`, `datetime_from_timeval`, `datetime_now`; the result of `gettimeofday` is an
--     argument, as is what is in the memory of the `struct tm` that `datetime_to_tm` fills in.
--     Datetime/System has the functions that ask the operating system for the time and the time
--     zone, on each platform; what it answers is an argument, and the words of a file time are 32 bits.
--   * Iso8601 (src/qtl_datetime.c): `datetime_from_iso8601`. Its result is `ok`, `refused` (the return
--     value 1) or `fault` (a read behind the memory of the text). The loop over the digits of the fraction
--     has as many rounds as there are bytes left.
--   * Format (src/qtl_datetime.c): `datetime_format`, as the list of the bytes that it stores.
--   * Spsc (src/spsc_queue.c): the bounded queue over an array. The argument `checked` of `spsc_queue_init`
--     says whether assertions are compiled in. Refine and Calls treat calls from one
--     thread at a time; Threads is a step relation in which a producer and a consumer make one access to
--     shared memory at a time, interleaved in any order.
--   * Event (src/qtl_event.h): events and their reference counts.
--   * EventQueue (src/qtl_queue.c): queues of events, over Spsc. The events are addresses into a `Store`
--     that all queues share. `event_queue_push` also returns the bus that it wakes up. The fuel of
--     `event_queue_clear` is the capacity, which is more than the queue ever holds.
--   * Reminder (src/qtl_rqueue.c): reminders in the order of their times. The red-black tree of
--     src/adt_tree.h is an argument: the record `RbOps` of its operations, and `RbLaws` of what they do to
--     the nodes in their order. Tests/Reminders fills both with sorted lists.
--   * Clock (src/qtl_clock.c): clocks with a queue of reminders; `utc_now`, which the repository does not
--     define, is an argument. The fuel of a clearing is an argument; the number of reminders is enough.
--   * EventTree (src/qtl_etree.c): a search tree of the queues of a pipe, by the times of their first events;
--     queues of one time are in a chain. Memory has the nodes, queues and events by their addresses, and
--     the results: a value, a failed assertion, a fault at a null pointer, or no fuel left. The argument
--     `checked` of a read says whether assertions are compiled in. The fuel is for each walk down the tree;
--     the number of its nodes is enough. The files from Shape on are about the memory as a tree in order:
--     insertion (Insert to Rebalance), the list of its nodes (Order, Represents), and reads (Take to
--     Closing; Entries, NextEvent and AllEvents for many reads, Played and UntilClosed for all reads from
--     queues that end with a closing event), and the adding of queues
--     (Adding, FirstNode, UnsetRoot).
--   * EventPipe (src/qtl_pipe.c): a pipe, which adds the queues that other threads hand over to its tree
--     before it reads or tests it, in so many rounds, one more than the queues that wait. `event_pipe_new`
--     gives the pipe that it makes, which the C function does not return. HandOver has the calls of other
--     threads, Filling and Loading the adding of queues to the tree.
--   * EventBus (src/qtl_bus.c): the bus and, in EventBus/Dequeue, the two loops of `event_bus_dequeue`, one
--     round at a time. The pipes are an argument, the record `PipeOps`; EventBus/Pipes has `PipeLaws`,
--     what the bus relies on in them: a relation between a pipe and the list of events that it gives. A
--     loop is given what other threads do to the bus before each of its rounds, and so many rounds; when
--     nothing arrives, one round is enough in real time, and in a simulation one more than the data pipe has
--     events. Polls has the three pipes that are asked first, Rounds, Order and Simulation the rounds of
--     the two modes, Loops the calls, one after the other, and Playback a simulation. OverPipes gives the
--     bus the pipes of src/qtl_pipe.c, each in a memory of its own, and Backtest puts the bus, the pipe, its
--     tree and its queues together.
--   * Version (src/qtl_version.c, include/qtl_version.h).
--   * Base has the native numbers, words, lists and tests that the others share; Tests has runs of the
--     code, and the theorems at concrete inputs.
--
-- A stamp is made from a date and a time (Datetime), which the parser reads from text and the printer
-- writes. Event queues carry events through the Spsc queue between threads and read the time of the event
-- at their head; a clock keeps the reminder queue, and the bus keeps two of them and takes events from its
-- pipes, for which it has an interface; a pipe reads from its tree of queues.
--
-- Not modelled: the mutex and the condition of the bus, so that waking it up has no effect beyond its being
-- named; src/adt_tree.h, src/adt_queue.h and src/adt_heap.h, copies of other libraries. Threads takes each
-- atomic access to take effect at once: weaker orders of memory than those of the acquire and release pairs
-- are not explored.
pub mod Base
pub mod Calendar
pub mod Datetime
pub mod Iso8601
pub mod Format
pub mod Spsc
pub mod Event
pub mod EventQueue
pub mod EventTree
pub mod EventPipe
pub mod Clock
pub mod EventBus
pub mod Reminder
pub mod Version
pub mod Tests
