-- ===== src/Lib.antt =====
-- linux-system-programming: exercises in Linux system programming in C, each file a program of its
-- own. This library models the programs that carry logic of their own and proves what they promise.
--
-- The parts, and the files that model them:
--
-- Kmp (02-file-io/kmp.c): the prefix table and the search of Knuth, Morris and Pratt. An `int` that
-- may be -1 is an integer; a read out of bounds is the result `none`; the inner `while` runs on m +
-- 2 rounds, which always suffice. Kmp/Fall is about the inner loop, Kmp/Build about
-- `build_prefix_table`, Kmp/Search about `kmp_search` and `find`, Kmp/Count counts occurrences with
-- no table, Kmp/File has `read_str_buf` and `main`, and Kmp/Load is about the block that grows and
-- the program as a whole. The capacity of the block is an `int`, whose overflow is kept apart. The printing of the table is left out.
--
-- Feast (09-memory/feast.c): `serve_dishes` over a table of five platters. Feast/Scan is about the
-- `for`, Feast/Serve about one order, Feast/Run about the `while` and its input, where the end of
-- the file, text that is no number, and the uninitialised variable of `get_next_dish_order` are
-- modelled, and Feast/Fetches about what is fetched. The counts of uses and of fetches fit in an `int`
-- for as many rounds as fit in one. The fuel is a
-- round for each number of the input and two for its end. `print_state` is output only.
--
-- BoundedBuffer (05-threading/examples/src/producer_consumer2.c): the ring with `put` and `get`,
-- and producer and consumer as steps of two threads with one mutex and two condition variables.
-- BoundedBuffer/Queue is about the ring, BoundedBuffer/Invariant about every reachable state,
-- BoundedBuffer/Safety draws the conclusions. BoundedBuffer/Refine compares the states with a channel.
--
-- Refill (05-threading/examples/src/producer_consumer1.c): `produce` and `consume` as steps of two
-- threads, with the counter of fills. Refill/Invariant is about every reachable state,
-- Refill/Safety draws the conclusions.
--
-- Chat/LList (00-network-programming/examples/chat/llist.c, llist.h): the doubly linked list over
-- an explicit heap (Heap), where a bad pointer is a fault. What malloc returns is an argument.
-- Chat/LList/Stack is about use at one end, Chat/LList/Queue about use as the client's queue,
-- Chat/LList/Destroy about `llist_destroy`, whose loop runs on fuel above the number of nodes, and
-- Chat/LList/Runs about any calls at the front, from `llist_init` on.
--
-- Chat/Client (00-network-programming/examples/chat/client.c): the thread of `main`, which puts
-- lines into the queue, and the thread of `loop`, which sends them, as a list of events over the
-- queue, the messages and the pipe. Chat/Client/Lines is about lines that are sent one by one,
-- Chat/Client/Crash about two lines in the queue, Chat/Client/Connect about the connection, and
-- Chat/Client/Main has `main` from its arguments to its end. A call
-- of the linked list is taken as one event's, though the code has no lock there.
--
-- Hogwarts (05-threading/class/hogwarts/hogwarts.c): `run_dobby` and `run_house_elf` as steps over
-- the globals, two semaphores and the mutex, with cancellation. Hogwarts/Weights counts elves by
-- where they stand, Hogwarts/Invariant and Hogwarts/Tasks are about every reachable state,
-- Hogwarts/Cancel about the elves that Dobby has cancelled, Hogwarts/Safety and Hogwarts/Progress
-- draw the conclusions. The model is of the file with `b = 1;` and `todo - > id` corrected, for an
-- argument that is not negative. What a task hashes is left out.
--
-- Buffers: functions that read a line into a block that grows, with every byte of the block and
-- what realloc leaves in it: Buffers/Shell (`ezsh_read_line`, 04-process-management/shell.c),
-- Buffers/Server (`read_line`, 04-process-management/file_server.c), Buffers/Reply (`input_reply`,
-- 00-network-programming/examples/listener.c), Buffers/Tokens (`ezsh_split_line` of shell.c, on the
-- addresses that strtok returns), Buffers/Stream (03-buffered-io/fgetc_buffer.c). Each loop follows
-- its input. Whether malloc has memory is an
-- argument where the code tests it. In Buffers/Shell and Buffers/Stream the overflow of a capacity,
-- which is an `int`, is an outcome; in Buffers/Server and Buffers/Reply capacities are numbers without a
-- bound, which is the same for a line of less than 2 ^ 30 bytes.
--
-- Transfers: loops on read, write, send and fread, whose results are a list: Transfers/Short
-- (`write_all` of 02-file-io/kmp.c, `sendall` of 00-network-programming/examples/chat/client.c),
-- Transfers/SendFile (`send_file` of 04-process-management/file_server.c), Transfers/Copy
-- (03-buffered-io/fwrite_copy.c, with rounds as fuel: more rounds than whole blocks are
-- enough), Transfers/Print (02-file-io/cat.c).
--
-- Kernel: what the programs below have in common. A program makes calls of the kernel; the replies
-- are a list that is an argument and may be anything, and each call is logged with its reply. A run
-- ends with a value, by `exit`, or in a call that has no reply any more. Kernel/Count counts how
-- often a log hands out and closes a descriptor. What getaddrinfo, inet_pton, htons and strtok
-- return are arguments too. The printing of addresses is left out throughout.
--
-- Shell (04-process-management/shell.c): `ezsh_loop`, `ezsh_execute`, `ezsh_launch` and the built-
-- ins over Buffers/Shell and Buffers/Tokens, for a number of rounds. Shell/Words has a shell with
-- no buffers, in which a command is a list of words, and Shell/Session compares the two over whole
-- inputs; a round for each line and one more are enough.
--
-- FileServer (04-process-management/file_server.c): `handle_client` over `read_line` and
-- `send_file`, and `main` with its sockets, for a list of clients. FileServer/Client is about one
-- request, FileServer/Loop about what `main` does for its clients and about the descriptors. The replies
-- to recv, read and send of a client are lists of their own, since these calls change no descriptor; the
-- log has the other calls.
--
-- Sockets (00-network-programming/examples): Sockets/Listener and Sockets/Messages (`udp_serv`,
-- `init_with_first`, `handle_message` and `serve_forever` of listener.c), Sockets/Talker
-- (talker.c), Sockets/Client1 (client1.c), Sockets/Client2 (client2.c), Sockets/Server (server.c,
-- whose `while` has a number of rounds; fork returns in the parent or in the child as its reply
-- says, and the run is that of this process), Sockets/SelectClient and Sockets/SelectClient/Session (select_client.c). Sockets/Text
-- is about the text that is shown of a message.
--
-- WatchCount (05-threading/class/condition.c): `inc_count` twice and `watch_count` as steps under
-- one mutex. WatchCount/Safety has the invariant and what follows from it.
--
-- Turns (05-threading/examples/src/condition.c): `funcCount1` and `funcCount2` as steps under one
-- mutex with two condition variables. Turns/Invariant is about every reachable state, Turns/Safety
-- draws the conclusions.
--
-- Sorting (05-threading/class/insertion_sort.c): `insertion_sort` on an array of any type with a
-- comparison. Sorting/Insert is about the loops as writes to the array, Sorting/Sorted about the
-- result. Nothing runs on fuel there: each loop counts down to its bound. Sorting/Merge
-- (05-threading/class/merge_sort.c) has `merge` and `merge_sort`: Sorting/Merge/Merged is about
-- merged lists, Sorting/Merge/Loops about the loops on `tmp` and the array, Sorting/Merge/Sort
-- about the result. The loops run on more rounds than `tmp` has elements, and the calls of
-- `merge_sort` on a depth of the length of the part, which is enough. The two threads sort disjoint
-- parts; here the parts are sorted one after the other.
--
-- Processes (04-process-management): what dup, dup2, pipe, open, close, fork and execvp do to a
-- table of descriptors, and a rule for each of them (Processes/Rules). A list of Booleans says which
-- calls succeed; a run that finds the list at its end waits. Processes/Pipeline and Processes/Piped
-- are about shell_pipe.c, Processes/Redirect about fork_exec.c, Processes/Daemon about daemon.c.
--
-- Pipe (04-process-management/pipe.c): the parent that writes and the child that reads, as steps
-- over the bytes in the pipe, from where fork has returned; malloc and realloc do not fail there.
-- Pipe/Buffer is about the child's block, Pipe/Invariant about every reachable state,
-- Pipe/Progress about what is left to do.
--
-- SharedList (05-threading/class/linkedlist.c): two threads of `push_thread` statement by statement,
-- with the nodes on the heap of Heap. SharedList/Invariant, Keep, Push and Reached have the
-- invariant, SharedList/Free the loops of `main` and `single_list_free` on fuel, for which one round
-- more than there are nodes is enough, SharedList/Bag forgets the order of elements, and
-- SharedList/Safety has what follows.
--
-- Join (05-threading/examples/src/join.c): `main` and any number of threads of `work`, with `x++` as
-- a read and a write. Join/Invariant sums over the threads, Join/Safety draws the conclusions.
--
-- Ls (02-file-io/ls.c): `main` over the names that readdir gives, with the bytes of the block for
-- the path (Ls/Listing), and `print_mode` (Ls/Letters). The doubling runs on fuel; one round more
-- than the longest path has bytes is enough.
--
-- Not modelled: 05-threading/class/semaphores.c and the small programs on threads,
-- 00-network-programming/examples/find_ip.c, programs that only make calls of the kernel or of the C
-- library with no state of their own (message queues, signals, single forks), and what is printed for
-- the user where nothing depends on it.
--
-- Prelude has the names that all share: native numbers, lists, `int` as an integer.
pub mod BoundedBuffer
pub mod Buffers
pub mod Chat
pub mod Feast
pub mod FileServer
pub mod Heap
pub mod Hogwarts
pub mod Join
pub mod Kernel
pub mod Kmp
pub mod Ls
pub mod Pipe
pub mod Prelude
pub mod Processes
pub mod Refill
pub mod SharedList
pub mod Shell
pub mod Sockets
pub mod Sorting
pub mod Transfers
pub mod Turns
pub mod WatchCount
