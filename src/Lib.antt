-- ===== src/Lib.antt =====
-- grpc-php-rs: a PHP extension that replaces ext-grpc, written in Rust on tonic. PHP makes a
-- `Grpc\Channel` (channel.rs) with credentials (credentials.rs), makes `Grpc\Call` objects over it with
-- a deadline (timeval.rs), and runs each call by `startBatch` (call.rs). A batch is parsed, then run as
-- a unary call on the PHP thread's tokio runtime (runtime.rs) or through a spawned task that talks to
-- the call over channels. Messages pass through a codec that copies bytes (codec.rs). The calls of
-- one channel share its transport, whose connectivity state they update, and its closed flag.
--
-- Which file models which source (all under src/):
--   Common, Host      the shared names; PHP values and arrays, and the functions of the PHP engine,
--                     of ext_php_rs and of the Rust library that the sources call (a parameter)
--   Error             error.rs
--   Runtime           runtime.rs: the runtimes are state, a runtime is a number
--   Timeval           timeval.rs: the clock's reading is an argument
--   Deadline          call.rs: now_usec, deadline_instant, deadline_already_expired, status_to_php
--   Metadata          call.rs: parse_send_metadata, parse_metadata, collect_metadata, metadata_to_php,
--                     status_metadata_for_php; Metadata.Map holds tonic's map operations (a parameter)
--   Codec             codec.rs
--   Credentials       credentials.rs: the statics are state
--   Channel           channel.rs: a World holds the transports, the registry and the closed flags of
--                     a PHP thread; Channel.Args and Channel.Endpoint are the parts of __construct,
--                     Channel.Connectivity and Channel.Watch the other methods
--   Stream            call.rs: ActiveStream and the tasks that start_server_stream and
--                     start_bidi_stream spawn, as one state machine; step is one step of a task;
--                     Stream.Reads is what the PHP thread waits for
--   Call              call.rs: GrpcCall. Call.State is its state and the monad of the methods,
--                     Call.Batch is parse_ops, Call.Dispatch is dispatch_batch, Call.Unary is
--                     execute_call, Call.Streaming is build_stream_result, and Call.Streaming.Sending
--                     the methods that open a stream and send on it
--   Thread            channel.rs and call.rs together: the objects of one PHP thread, and the steps
--                     that PHP and the background tasks take on them in any order
--   Compat            compat.rs: the flags of the engine's functions are a memory by address
--   Extension         lib.rs: register_constants and get_module
--
-- What the world outside does is data: Stream.Remote says how a stream goes, Call.State.Environment
-- holds everything that one batch depends on (clock readings, tonic's verdicts, the plugin's reply, how
-- far the stream's task has run, which ready branch select! takes, and what the thread's other tasks
-- write to the states of transports while the batch drives the runtime). Theorems hold for all of them.
-- What a stream's own task writes to the state of its transport is published when its call next reads;
-- what other batches see of it before is among the writes of their environment.
-- A request that is built for tonic's client is recorded as the event `dispatched`, whether the
-- connection then becomes ready or not; no operation reads the events.
--
-- Bounds and fuel: an i64 is a ℤ whose saturating operations are written out. The drain loop and a
-- blocking read run on fuel that counts the work or the steps that a task has left, which is shown to
-- be enough; the watch loop runs on fuel that counts the microseconds to its deadline. Blocking on a
-- stream is modelled for tasks whose environment makes progress: each course of a call ends.
--
-- Not modelled: tonic, tokio, ext_php_rs and the Zend engine themselves, whose functions are
-- parameters; the test server; a plugin whose PHP code itself uses the extension (a plugin is its
-- reply); errors while setting properties of PHP objects; several PHP threads
-- at once (each has its own registry; what they share, the default roots, the id counter and the
-- process-wide runtime, is state passed on in Credentials and Runtime).
pub mod Call
pub mod Channel
pub mod Codec
pub mod Common
pub mod Compat
pub mod Credentials
pub mod Deadline
pub mod Error
pub mod Extension
pub mod Host
pub mod Metadata
pub mod Runtime
pub mod Stream
pub mod Thread
pub mod Timeval
