-- ===== src/Lib.antt =====
-- The homework solutions of a system programming course. Each part is a program or a library of
-- its own; here is what models it.
--
-- - Parser: 2/parser.cpp and 2/parser.h, the tokens and the command lines of a shell. Parser/Lexer
--   is `parse_token` (a function for each label of its switch; `scan` and `skip_spaces` are its
--   loops), Parser/CommandLine the data of 2/parser.h, Parser/Pop `parser_feed`, `parser_consume`
--   and `parser_pop_next` (`pop_loop` is its main loop, `close_line`, `redirect`, `background` and
--   `end_line` the code behind `close_and_return`, `skip_line` the loop of `return_error`).
--   Parser/Printer is not in the program: it says how a line can be written.
-- - Shell: 2/solution.cpp. Shell/Execute is `run_pipeline` and `execute_command_line` (`split` is
--   its first loop, `run_segments` its second), Shell/Main is `main` (`drain` is the inner loop,
--   `read_loop` the outer one, over a list of what the calls of `read` return). The record System
--   stands for processes, pipes and the current folder; theorems hold for each such system.
-- - Corobus: 1/corobus.cpp. A World is the bus, the last error and the coroutines made runnable
--   and not run yet; a coroutine inside a blocking call is the call, and `round` is one turn of
--   the loop of `coro_bus_send` or `coro_bus_recv`. Corobus/Steps is the relation of all steps, in
--   which any runnable coroutine may go on; Corobus/Order is the bounded queue that a channel is.
-- - Userfs: 3/userfs.cpp, the directory, the reference counts and the table of descriptors, with
--   `ufs_open`, `ufs_close`, `ufs_delete` and `ufs_destroy`; Userfs/Blocks is the data, with
--   `ufs_write`, `ufs_read` and `ufs_resize`. A pointer to a file is its address, and following
--   one to a file that is gone gives `none`. Userfs/Alive is the invariant, Userfs/Safety the
--   programs of calls; Userfs/Blocks/Content takes the bytes of a file out of its blocks.
-- - ThreadPool: 4/thread_pool.cpp, one pool. A call is cut into the parts that run under a mutex,
--   the accesses of the atomic counter and the release of a task; `advance` makes one of them, for
--   a thread that stands at an At. ThreadPool/Steps lets any thread go on next, ThreadPool/Balance
--   sets the counter and the queue against the tasks, ThreadPool/Claims says who may still use a
--   task, by the rules on its use (`MayBegin`), ThreadPool/Steps/Sleepers follows the conditions,
--   and ThreadPool/Joins compares the two ways to join.
-- - Chat: 5/chat_server.cpp and 5/chat_client.cpp. Chat/Framing is the cutting of a stream into
--   lines, Chat/Link the way out of a peer and of a client, Chat/Server and Chat/Client the two
--   programs, Chat/Relay one client, the server and another client. What send, recv, accept, poll
--   and epoll_wait answer are arguments, and so are their errors.
-- - Libcoro: 1/libcoro.cpp, the scheduler. An Engine is `coro_engine`; a coroutine is its place
--   among all that were made, and the context that is saved for it is the place in the code where
--   it goes on. `step` is what the current code does next: a call of libcoro, the end of a
--   coroutine, or a round of the loop of `coro_join`. Libcoro/Calls has it and the calls.
--   Libcoro/Places and Libcoro/Waits are the invariant, Libcoro/Steps keeps it, Libcoro/Reached
--   takes every run of steps, Libcoro/Delivery follows a value from the end of a coroutine to the
--   join of it.
-- - HeapHelp: utils/heap_help/heap_help.cpp. An object of the checker is its number; `trace` and
--   `untrace` are what operator new and operator delete do beside malloc and free, `ending`
--   (HeapHelp/Ending) is the destructor. HeapHelp/Maps is the map of the allocations,
--   HeapHelp/Objects their objects, HeapHelp/Steps and HeapHelp/Runs set the checker beside a map
--   from pointers to sizes, HeapHelp/Reports is the report.
-- - Common: numbers, lists and tests that the parts share.
--
-- Strings are lists of bytes. A pointer into the buffer is the list of the bytes from it to the
-- end, and `pos - begin` is a number. `uint32_t` results are truncated (`u32`), so most theorems
-- on the parser ask for less than 4 GiB of bytes. The failure of an `assert` is an outcome of its
-- own.
--
-- The loops of `parse_token` recur on the bytes. Those of `parser_pop_next` take fuel: one more
-- than the bytes that are left, which is enough, since a round that goes on has used a byte (and
-- so for `drain`, where a round that goes on has consumed one); that the fuel never runs out is a
-- part of the theorem Parser.Pop.Results.parser_pop_next-Answers.
--
-- In Shell the children of a pipeline are a list that says what each runs, reads from and writes
-- to; what a child does after that belongs to the system, and so does whether it ends: where one
-- that the shell waits for does not, the outcome is `hangs`, and `hung` for the shell. `atoi` is
-- modelled up to its low byte, without overflow.
--
-- In Corobus a coroutine runs on only after `coro_wakeup` by the bus, and the memory of a closed
-- channel is not followed. `coro_bus_delete`, which frees it, is not modelled.
--
-- In Userfs `refs` does not overflow, and files and blocks take their addresses from one counter,
-- so that none is used again. The loops of `ufs_write` and `ufs_read` run on as much fuel as there
-- are bytes, and each round takes one at least.
--
-- In ThreadPool a wait on a condition ends by a broadcast, or at any time with none; the loop of
-- the atomic exchange is one step. 4/thread_pool.h says that a task is not used after a detach and
-- not pushed after it was deleted; the steps begin calls by that rule, and begin a delete or a
-- detach only when no other call on the task is under way. The functions of tasks, the clock and
-- the memory of the pool are not modelled: how many threads the system makes, whether a wait times
-- out and whether it comes back with no broadcast are arguments.
--
-- In Chat the loop over the lines runs on fuel, one more than the bytes in the buffer, and each
-- line takes one byte at least; the loops over send and recv end with the list of their answers.
-- Both programs are modelled as chat.h has them built, with NEED_AUTHOR and NEED_SERVER_FEED. In
-- HeapHelp the mutex makes each call one step; what malloc and backtrace answer are arguments, and
-- so is what the memory of a new batch holds. In Libcoro the code between two calls does nothing
-- to the engine, the values of functions are numbers with 0 for a null pointer, and the memory of
-- a coroutine stays until `coro_sched_destroy`, so that a pointer to it stays its place. Corobus
-- stands on its own list of runnable coroutines, which run in any order.
--
-- Not modelled: memory allocation and its failure, and the texts of messages; the stacks of
-- coroutines, and the signal and the jumps by which libcoro makes and switches them; the chat over
-- Boost (advanced/boost_chat), whose library is not in the repository, and the command lines
-- around the chat of part 5; the examples of the lectures, the tests and their helpers; and
-- rlist.h, a copy of a list library, whose lists are lists here.
pub mod Common
pub mod Parser
pub mod Shell
pub mod Corobus
pub mod Userfs
pub mod ThreadPool
pub mod Chat
pub mod Libcoro
pub mod HeapHelp
