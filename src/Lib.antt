-- ===== src/Lib.antt =====
-- nanomsg, a library of sockets that exchange messages by scalability protocols. This development
-- models the parts that carry the program's own logic and proves what each of them promises. Paths
-- are from the root of the repository.
--
-- The parts and how they interact. A user's call comes to a socket (src/core/sock.c), which asks its
-- protocol, a table of functions (src/protocol.h), to send or receive, and waits on an event
-- descriptor while the protocol would block. A protocol works on pipes (src/core/pipe.c), one for each
-- connection; a pipe counts as a connection of its socket, and passes messages to a transport. The
-- in-process transport has two sessions for a connection (src/transports/inproc/sinproc.c), each with
-- a queue of messages in chunks (msgqueue.c) and events for the other session; a bound and a connecting
-- endpoint (binproc.c, cinproc.c) find each other by their addresses (ins.c) and own the sessions. Both,
-- and the timers of the event loop (src/aio/timerset.c), keep what they own in a doubly linked list
-- (src/utils/list.c). The state machines exchange events (src/aio/fsm.c) in the queues of a context
-- (src/aio/ctx.c), which are intrusive (src/utils/queue.c); the event loop learns of descriptors that
-- are ready from a poller (src/aio/poller_epoll.inc). A message (src/utils/msg.c) has three parts, each in
-- the object itself or in a chunk of memory with a count of references (chunkref.c, chunk.c), and the
-- transports that use a network encode numbers with src/utils/wire.c.
--
-- Which file models which part.
--   Prelude, Prelude/*: booleans, lists, signed integers, bits, and `Outcome`, what a call comes to.
--   Wire: nn_gets, nn_puts, nn_getl, nn_putl, nn_getll, nn_putll on a list of bytes.
--   Queue: the queue of src/utils/queue.c; the links are a function from addresses.
--   Msgqueue: nn_msgqueue_init, _empty, _send, _recv and _term; the chunks are two functions from addresses,
--     and a message is what the queue calls on it.
--   Sock: the types of a socket and of a protocol. Sock/Options: nn_sock_setopt, nn_sock_getopt,
--     nn_sock_optset. Sock/Statistics: nn_sock_stat_increment, nn_sock_add, nn_sock_rm. Sock/Hold:
--     nn_sock_hold, nn_sock_rele. Sock/Events: nn_sock_onleave. Sock/Transfer: nn_sock_send,
--     nn_sock_recv. Sock/Lifecycle: nn_sock_handler, nn_sock_shutdown, nn_sock_add_ep, nn_sock_rm_ep, nn_sock_stopped.
--     Sock/Setup: nn_sock_init, nn_sock_term, nn_sock_ispeer.
--   Pipe: nn_pipebase_start, _stop, _received, _sent, nn_pipe_send, nn_pipe_recv;
--     Pipe/Options: nn_pipebase_getopt.
--   Sinproc: nn_sinproc_handler, nn_sinproc_shutdown, nn_sinproc_recv; nn_sinproc_send is not
--     modelled.
--   LinkedList: nn_list_init to nn_list_item_isinlist; the links are two functions from addresses.
--   Timerset: nn_timerset_init to nn_timerset_hndl_isactive, over LinkedList.
--   Timer: nn_timer_init, _term, _start (`begin`), _handler, _shutdown of src/aio/timer.c.
--   Ctx: nn_ctx_init, _term, _enter, _leave, _raise and _raiseto of src/aio/ctx.c on the sequences of
--     events of their queues, and nn_fsm_event_init, _active, _process and nn_fsm_feed of src/aio/fsm.c.
--   Ipc: nn_ipc_optset and the functions that set and get its options, of src/transports/ipc/ipc.c.
--   Worker: nn_worker_fd_init to nn_worker_cancel and nn_worker_routine of src/aio/worker_posix.inc, and the
--     timers of worker.c, over Queue, Timerset and Poller.
--   Poller: nn_poller_init, _add, _rm, _set_in, _reset_in, _set_out, _reset_out, _wait and _event of
--     src/aio/poller_epoll.inc; a mask is three Boolean fields.
--   Chunk: nn_chunk_alloc, _realloc, _free, _size, _trim and nn_chunk_getptr of src/utils/chunk.c, on the
--     bytes of each block.
--   Chunkref, Msg: nn_chunkref_init to _bulkcopy_cp, without _data, and nn_msg_init to _replace_body.
--   Ins: nn_ins_init, _term, _bind, _connect, _disconnect, _unbind, on sequences of items in place of
--     linked lists.
--   Endpoint: Endpoint/Binproc has nn_binproc_create, _connect, _handler, _destroy and
--     binproc_shutdown, Endpoint/Cinproc the same functions of cinproc.c; calls of other files are
--     results, in order.
--   Poll: nn_poll of src/core/poll.c, for systems with poll(2).
--   Hash: nn_hash_init, _term, _insert, _erase (`remove`), _get, and nn_hash_rehash and nn_hash_key, on
--     the sequences of items of the slots.
--   Strings: nn_strcasecmp, nn_strncasecmp, nn_strcasestr.
-- In each, a module called Tests holds concrete runs, and the others hold the proofs.
--
-- Bounds. Numbers are natural numbers or integers, and the wrap-around of uint64_t, size_t and int is
-- written out where a sum can reach it; counts of things in memory cannot. The loops of
-- nn_sock_send, nn_sock_recv and nn_sock_term take one element of a list for each wait, which says
-- what the wait returns and, for the first two, what other threads do to the socket meanwhile; the
-- list is what the environment does, and the theorems say which lists are enough for a return. The
-- loops of nn_ctx_leave have as fuel more than the events that there are and will be, and the
-- loop of nn_timerset_add has as fuel the number of handles in the set or more, and that of
-- nn_msgqueue_term one for each call of nn_msgqueue_recv.
--
-- Parameters. The protocol, the option sets of transports, the functions of state machines, the results
-- of nn_alloc, of nn_chunk_addref, which has no definition in the sources, of system calls and of the
-- endpoint functions that src/core/ep.h declares are arguments of the definitions, and so are the time that nn_clock_ms gives in a call, tolower, poll(2), and nn_getsockopt for nn_poll, of
-- which the sources have stubs only.
--
-- Not modelled: the sockets and other pollers of the event loop (src/aio);
-- wrappers of the operating system, which have no logic of their own; the protocols and the transports
-- for networks, of which only headers are there.
pub mod Prelude
pub mod Wire
pub mod Queue
pub mod Msgqueue
pub mod LinkedList
pub mod Timerset
pub mod Strings
pub mod Hash
pub mod Poll
pub mod Timer
pub mod Chunk
pub mod Chunkref
pub mod Msg
pub mod Poller
pub mod Ctx
pub mod Worker
pub mod Ipc
pub mod Ins
pub mod Endpoint
pub mod Sock
pub mod Pipe
pub mod Sinproc
