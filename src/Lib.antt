-- ===== src/Lib.antt =====
-- A model of libcometd, a client for the Bayeux protocol, and theorems about it.
--
-- The client (include/cometd.h, src/cometd.c) keeps a handle: the connection (src/conn.c), the
-- configuration with the registry of transports, the last error (src/error.c), the run loop
-- (src/loop.c, src/loops/gthread.c), the inbox (src/inbox.c), the table of subscriptions
-- (src/event.c) and the extensions (src/ext.c, src/exts). The application calls cometd_connect,
-- cometd_publish, cometd_subscribe, cometd_unsubscribe, cometd_listen and cometd_disconnect. Every
-- request goes through cometd_impl_send_msg_sync: the extensions see the message, a transport
-- posts it (src/http.c, src/transport_long_polling.c), and each message of the reply goes through
-- the extensions and to the listeners of its channel (src/channel.c). Two listeners are the
-- client's own: they process the responses to a handshake and to a connect, which move the
-- connection between its states, take the server's advice, and may start a handshake again. A
-- thread (cometd_loop_gthread_run) receives by long polling, takes the last connect response out
-- of what comes, pushes the rest into the inbox, and backs off after failures; cometd_listen takes
-- the messages from the inbox.
--
-- Which file models which part:
-- - Prelude: library names, Booleans and integers (Prelude/Tests), lists (Prelude/Lists), and
--   commands over a state (Prelude/Results), whose outcome is a value, a crash (a failed g_assert,
--   a null pointer read, an index out of bounds) or the want of fuel.
-- - Libs: json-glib and GLib's string functions as records of operations, with their documented
--   behaviour as laws.
-- - Conn, Conn/Types: src/conn.c. Channel: src/channel.c. State, State/Types: the structs of
--   include/cometd.h and include/cometd/. Event, Event/Table: src/event.c. Msg: src/msg.c. Inbox:
--   src/inbox.c. Transport: src/transport.c and the registry in src/cometd.c. Http: src/http.c,
--   src/json.c, src/error.c, src/transport_long_polling.c. Ext: src/ext.c, src/exts/logger.c,
--   src/exts/yammer.c.
-- - Backoff, Messages, Client, Session, Receiving: src/cometd.c with src/loop.c and
--   src/loops/gthread.c: the delays; the messages that are built; processing and the handshake;
--   what the application calls; the receiving and the listening loop.
-- - Calls: the functions of the handle as one command, and what any sequence of them keeps
--   (Calls/Sound is the relation between the client before and after, Prelude/Keeping has a rule
--   for each way to build a command, and the other children have a lemma for each operation).
--   Threads: src/loops/gthread.c and cometd_disconnect as two threads whose steps interleave.
--   Memory: the blocks that the client allocates and frees, and in Memory/Firing the loop of
--   cometd_listener_fire over blocks that its callbacks may free.
-- - Examples: the programs of examples/ as calls of their main thread.
-- - Samples: a JSON type, a string splitter and a client on which the theorems are applied.
-- The names of functions are those of the code without the prefix cometd_ or cometd_impl_;
-- cometd_process_handshake and cometd_process_connect are run_process_handshake and
-- run_process_connect, since the names without run_ are the constructors for the function
-- pointers. A child module with another name than Types, Table, Names, Memory/Firing or a sample
-- holds theorems.
--
-- How the code is translated. GList, GQueue and GHashTable are lists, the table with its channels
-- as keys. A pointer that may be NULL is an Option, and an object that is compared by its pointer
-- has an address. A function pointer is the name of one of the code's functions or the number of a
-- foreign one; what foreign code does is a parameter (Env), as is curl: a function from the
-- requests so far and the next one to the reply. json_node_copy shares the object that a node
-- holds, so what an extension writes into a message is in the copy that is posted; application
-- callbacks are taken not to write into the message that they are given, and an HTTP timeout is
-- taken to fit an int. A long is an integer within its range; the counts of attempts and of parts
-- wrap at 2 ^ 32 as guint does.
--
-- A message may start a handshake and a handshake processes messages, so processing takes the
-- handshake as an argument. handshake takes fuel, which bounds its rounds and how deep one
-- handshake starts in another; one round takes one unit. The backoff grows by its increment with
-- each attempt, so that the milliseconds of its limit, with one or two more, are fuel enough for a
-- run of failures. The loops of the two threads take fuel for their rounds likewise, as they run
-- as long as the client is connected.
--
-- Threads has the steps of the receiving thread and those of one call of cometd_disconnect. There
-- the processing of a message is one step, or, where cometd_process_connect alone hears it, that
-- function's test and what follows it as two; the application's other calls are not among the
-- steps. Elsewhere a command of one thread runs without steps of another between, but for the
-- inbox, which has them interleaved, and the join in cometd_disconnect: it runs the rounds that
-- the receiving thread still has, from the start of a round.
--
-- cometd_listener_fire takes pointers to subscriptions before its first call and reads each at its
-- turn. A subscription that is no longer in the table was freed, and the read is a crash; an
-- address is not given out twice.
--
-- Not modelled: the temporary blocks of a request, the keys of the table as pointers into the
-- application's memory, the reference counts of json-glib and a malloc that fails (but for the
-- buffer of a reply), the steps of the listening thread among those of the others, the copy of
-- libev in deps, the tests, and the examples that are not built (examples/async.c,
-- examples/single_threaded.c).
pub mod Prelude
pub mod Libs
pub mod Conn
pub mod Channel
pub mod State
pub mod Event
pub mod Msg
pub mod Backoff
pub mod Transport
pub mod Http
pub mod Ext
pub mod Messages
pub mod Calls
pub mod Client
pub mod Inbox
pub mod Session
pub mod Receiving
pub mod Threads
pub mod Examples
pub mod Memory
pub mod Samples
