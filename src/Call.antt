-- ===== src/Call.antt =====
-- src/call.rs: `Grpc\Call`, the operations that PHP calls on it.
pub mod Batch
pub mod State
pub mod Request
pub mod Result
pub mod Unary
pub mod Streaming
pub mod Dispatch
pub mod Keeps
pub mod Expired
pub mod Integrity
pub mod Guards
pub mod Repeats
pub mod Writes
pub mod Frame
pub mod Limits
pub mod Once
pub mod Status
pub mod Sample
mod Tests
use grpc_php_rs.Common.{
  Bool, true, false, not, ◌&&◌, ◌||◌, String, concat, [], ◌∷◌, ◌++◌, Option, none, some, is_some,
  unwrap_or, get_elem?, ℤ, pos, if◌then◌else◌,
}
use grpc_php_rs.Host.{Host, Table}
use grpc_php_rs.Error.{
  status, PhpResult, ok, err, from, invalid_argument, runtime_exception, logic_exception,
}
use grpc_php_rs.Metadata.Map.{Tonic}
use grpc_php_rs.Timeval.{Timeval, Reading, to_absolute_usec}
use grpc_php_rs.Credentials.{CallCredentials}
use grpc_php_rs.Channel.{
  Channel, get_tonic_channel, get_shared, get_target_uri, get_closed_flag, get_call_plugin,
  get_max_decoding_message_size, get_max_encoding_message_size,
}
use Batch.{BatchOps, parse_ops}
use State.{Call, Environment, Action, pure, lift, gets, modify, ◌>>=◌, ◌>>◌}
use Result.{acked, ResultObject}
use Dispatch.{dispatch_batch}

module _ ⦃host : Host⦄ where
  abbrev over : Channel → String → Timeval → Option String → Reading → Call
  over channel method deadline host_override clock = record {
    method = method;
    target = unwrap_or (get_target_uri channel) "";
    deadline_usec = to_absolute_usec deadline clock;
    host_override = host_override;
    call_plugin = get_call_plugin channel;
    cancelled = false;
    max_decoding = get_max_decoding_message_size channel;
    max_encoding = get_max_encoding_message_size channel;
    pending_metadata = [];
    pending_message = none;
    send_closed = false;
    initial_metadata_sent = false;
    finished = false;
    channel_closed = get_closed_flag channel;
    channel_shared = get_shared channel;
    stream_state = none;
    events = [];
  }

  -- `Call::__construct`. The tonic channel of the call is that of its transport.
  unfoldable pub construct : Channel → String → Timeval → Option String → Reading → PhpResult Call
  unfolding to_absolute_usec get_tonic_channel
  construct channel method deadline host_override clock = elim (get_tonic_channel channel) [
    | none ↦ err (invalid_argument "Call cannot be constructed from a closed Channel")
    | some tonic_channel ↦ ok (over channel method deadline host_override clock)
  ]

  -- `GRPC_CALL_ERROR_TOO_MANY_OPERATIONS`
  pub called_incorrectly : {A : Type 0} → PhpResult A
  called_incorrectly = err (logic_exception "start_batch was called incorrectly" (pos 8))

abbrev ack : Bool → String → ResultObject
ack done prop = if done then acked prop ∷ [] else []

acks : BatchOps → ResultObject
acks batch =
    ack batch.has_send_initial_metadata "send_metadata"
    ++ (ack (is_some batch.send_message) "send_message" ++ ack batch.send_close "send_close")

-- What the call notes of a batch before it is dispatched.
pub note : BatchOps → Call → Call
note batch c = record c {
  initial_metadata_sent = c.initial_metadata_sent || batch.has_send_initial_metadata;
  send_closed = c.send_closed || batch.send_close;
}

module _ ⦃host : Host⦄ ⦃tonic : Tonic⦄ (env : Environment) where
  -- The rest of `start_batch`, for a batch with operations on a call that goes on.
  unfoldable pub run_batch : BatchOps → Action ResultObject
  unfolding dispatch_batch acks note
  run_batch batch = modify (note batch) >> dispatch_batch env batch >>= λ result.
      modify (λ c. record c { finished = c.finished || batch.recv_status })
      >> pure (result ++ acks batch)

  pub check_batch : BatchOps → Action ResultObject
  unfolding called_incorrectly run_batch
  check_batch batch = gets (λ c. c) >>= λ call.
      if not batch.has_send_ops && not batch.has_recv_ops
      then pure []
      else if call.finished
      then lift called_incorrectly
      else if batch.has_send_initial_metadata && call.initial_metadata_sent
      then lift called_incorrectly
      else run_batch batch

  -- `startBatch`
  pub start_batch : Table → Action ResultObject
  unfolding check_batch parse_ops
  start_batch ops s =
      if unwrap_or (get_elem? s.world.flags s.call.channel_closed) false
      then (err (runtime_exception "startBatch Error. Channel is closed"), s)
      else if s.call.cancelled
      then (err (from (status (pos 1) "Call has been cancelled")), s)
      else (lift (parse_ops ops) >>= check_batch) s

-- What `lookup_host` gives first.
pub data SocketAddr : Type 0 where
  v4 : String → SocketAddr
  v6 : String → SocketAddr

unfoldable get_peer : (String → Option SocketAddr) → Bool → Call → String
get_peer lookup_host has_runtime c =
    if has_runtime
    then elim (lookup_host c.target) [
      | some (v4 a) ↦ concat "ipv4:" a
      | some (v6 a) ↦ concat "ipv6:" a
      | none ↦ c.target
    ]
    else c.target

unfoldable pub cancel : Call → Call
cancel c = record c { cancelled = true }

unfoldable pub set_credentials : CallCredentials → Call → ℤ × Call
set_credentials creds c = (pos 0, record c { call_plugin = some creds.plugin })
