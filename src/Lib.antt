-- ===== src/Lib.antt =====
-- A verification library for grpc-uds, gRPC over Unix domain sockets: the Rust core under
-- rust/grpcuds-core/src, the C interface under rust/grpcuds-ffi-impl/src with its mailbox, its
-- server, its client and its health service, and under rust/grpcuds/src the Rust server and
-- the Rust client.
--
-- The parts of the program and their files:
--   Framing    framing.rs: the five-byte message header.
--   Headers    headers.rs, and the conversion of a handler's return value of conn/dispatch.rs:
--              statuses, header lists, percent-encoding (Headers/Percent), grpc-timeout
--              (Headers/Timeout).
--   Errors     ConnError of conn/state.rs.
--   OutQueue   conn/out_queue.rs: the queue of framed messages of a stream, its policies, the copy
--              out (drain_into) and the promised regions of the direct send.
--   Conn       conn/state.rs: a connection with its streams and methods. Conn/Calls: the calls that
--              a handler makes. Conn/Receive: the callbacks on reception, of conn/callbacks.rs.
--              Conn/Dispatch: dispatch of conn/dispatch.rs. Conn/Deadlines: expire_deadlines and
--              next_deadline_ms. Conn/Provider: data_provider_read and send_data.
--   Client     client.rs: header text (Client/Text), the state of a call with its callbacks
--              (Client/Call), and the blocking connection (Client/Conn): pump and its flush and
--              expiry, the receiving loops (Client/Conn/Recv), connect and connect_wait
--              (Client/Conn/Wait), submit with its reconnection, and unary (Client/Conn/Submit).
--   Uds        uds.rs: the reads, the writes and the ticks of a connection on its socket, and the
--              listener (Uds/Listener).
--   Mailbox    mailbox.rs: the queue by which other threads reach the I/O thread.
--   Capi       rust/grpcuds-ffi-impl/src/server.rs: the functions of the C interface on a call,
--              their error codes and their routing; Capi/Server: those on servers and connections.
--              Capi/Health: health.rs beside it, the health service.
--              Capi/Client: client.rs beside it, the calls of a C client.
--   Server     rust/grpcuds/src/server.rs: the writers of the Rust server, what a handler queues
--              (Server/Unary), the pass of the I/O thread over the queue (Server/Routes), and the
--              rounds of its loop (Server/Loop); its builder (Server/Builder). Server/Health:
--              rust/grpcuds/src/health.rs, the health service over those writers.
--   Types      rust/grpcuds/src/lib.rs: errors and statuses.
--   Blocking   rust/grpcuds/src/client.rs: the blocking client, with the state of a call
--              (Blocking/Call), connecting (Blocking/Dial), and the calls (Blocking/Calls).
--   Codegen    rust/protoc-gen-grpcudspp/src/main.rs: the files that the stub generator makes of a
--              request and what it refuses, the names in them, and the setters (Codegen/Setters).
--   Wirelog    wirelog.rs: the records and segments of the capture (with Wirelog/Checksum), its
--              files (Wirelog/Files), its settings and start (Wirelog/Settings).
--   Transport  the queue of a server's stream joined to the state of a client's call.
--   Prelude    shared names, lists and Boolean tests.
--
-- How they interact: nghttp2 calls the functions of Conn/Receive as frames arrive; dispatch runs a
-- handler for each complete request; the handler writes to the stream's queue by Conn/Calls, or
-- another thread does so through the mailbox; nghttp2 pulls the queue by Conn/Provider, and the
-- bytes reach the client's callbacks of Client/Call. All streams of a client's connection have the
-- one state of a call, so the bytes and callbacks that a theorem on a client counts are those since
-- the last submission, of whatever stream. Of the two servers over Conn and Uds, that of
-- Capi leaves the loop to the host, while Server/Loop accepts, ticks and flushes by itself, and
-- takes from other threads what their writers queued.
--
-- How the code is modelled. An operation on `&mut self` takes the state and gives the new state
-- beside its result. A record has the fields of the struct, and a function has the name of the Rust
-- function; its branches stand in helpers by clauses. A byte is a number below 256. Machine
-- integers are natural numbers, with saturation and limits written out; stream ids and addresses
-- are only compared. The answers of the allocator (`room`, `copy`, `grants`), of the clock (`now`),
-- of the socket (`Sent`, `SendAnswer`, `ReadAnswer`) and of nghttp2 (`Answers`, `Pull`, `Recv`) are
-- arguments of the functions; those to one call of the client's pump are a `Turn`, those to an
-- attempt to connect an `Attempt`, those to a round of the server's loop a `Round`. The session of
-- nghttp2 is the list of the commands it was given. A handler of the application is any tree of
-- calls and answers (`Script`).
--
-- Bounds: the loops over lists recurse on the list. The loop of drain_into has a number of rounds,
-- the messages and two more, and the loop of deframe the length of the buffer; these numbers are
-- enough for every input. The loop over the pending bytes of flush_writes has a round more than
-- there are bytes: each takes a byte or stops. The loops over the answers of the system calls
-- recurse on the list of answers. The loops of both clients recurse on the list of turns (`Turn`:
-- what the system answers to one call of pump) or of attempts to connect; where the list ends
-- first, the result says so (`waiting`, `waits`, `none`). The loop of serve recurses on the
-- answers of poll. The loops of decode_check_request and of the wire log's segments have as many
-- --             rounds as there are bytes, and the folding of a checksum as many as
-- its sum: each round takes at least one.
--
-- Not modelled: nghttp2 itself and the two bytes-in, bytes-out entry points of the session; the
-- logging sink and the allocator; the handle of the thread that runs the Rust server, and which
-- of its handlers the core runs in a tick (they are given with the round); the encoding of typed
-- messages, which is prost's; the text of the generated stubs but for the setters, and the
-- generator of rust/grpcuds-build; the C++ wrapper.
pub mod Prelude
pub mod Framing
pub mod Headers
pub mod Errors
pub mod OutQueue
pub mod Client
pub mod Transport
pub mod Conn
pub mod Mailbox
pub mod Uds
pub mod Capi
pub mod Wirelog
pub mod Server
pub mod Types
pub mod Blocking
pub mod Codegen
