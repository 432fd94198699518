-- ===== src/Call/Dispatch.antt =====
-- src/call.rs: `dispatch_batch`, which routes a parsed batch to the unary or the stream machinery.
pub mod Losses
pub mod Repeats
use grpc_php_rs.Common.{
  Bool, true, false, not, ◌&&◌, [], ◌++◌, Option, none, some, is_some, if◌then◌else◌,
}
use grpc_php_rs.Host.{Host, Bytes}
use grpc_php_rs.Metadata.Map.{Tonic}
use grpc_php_rs.Metadata.{Pairs}
use grpc_php_rs.Call.State.{Environment, Action, lift_grpc, gets, modify, pure, ◌>>=◌, ◌>>◌}
use grpc_php_rs.Call.Batch.{BatchOps}
use grpc_php_rs.Call.Request.{invoke_call_plugin}
use grpc_php_rs.Call.Result.{ResultObject, build_unary_result}
use grpc_php_rs.Call.Unary.{execute_call}
use grpc_php_rs.Call.Streaming.{close_stream_send, build_stream_result}
use grpc_php_rs.Call.Streaming.Sending.{start_server_stream, start_bidi_stream, send_stream_message}

-- `std::mem::take` of the buffered metadata, and `take` of the buffered message.
unfoldable pub take_metadata : Action Pairs
take_metadata = gets (λ c. c.pending_metadata) >>= λ pairs.
    modify (λ c. record c { pending_metadata = [] }) >> pure pairs

unfoldable pub take_message : Action (Option Bytes)
take_message = gets (λ c. c.pending_message) >>= λ message.
    modify (λ c. record c { pending_message = none }) >> pure message

-- The batch that only reads.
unfoldable pub recv_batch : BatchOps → BatchOps
recv_batch batch = record {
  send_metadata = [];
  has_send_initial_metadata = false;
  send_message = none;
  send_close = false;
  recv_initial_metadata = batch.recv_initial_metadata;
  recv_message = batch.recv_message;
  recv_status = batch.recv_status;
  has_send_ops = false;
  has_recv_ops = true;
}

module _ ⦃host : Host⦄ (env : Environment) where
  -- The metadata of the call's plugin, if it has one.
  unfoldable pub plugin_metadata : Action Pairs
  unfolding invoke_call_plugin
  plugin_metadata = gets (λ c. c) >>= λ call. elim call.call_plugin [
    | none ↦ pure []
    | some plugin ↦ lift_grpc (invoke_call_plugin env.reply plugin call.method)
  ]

module _ ⦃tonic : Tonic⦄ (env : Environment) where
  abbrev pub send_if_some : Option Bytes → Action (Unit {0})
  send_if_some none = pure tt
  send_if_some (some message) = send_stream_message env message

  -- The send operations of a batch on an active stream.
  unfoldable pub forward : Option Bytes → Bool → Action (Unit {0})
  unfolding send_stream_message close_stream_send
  forward message close = send_if_some message >> (if close then close_stream_send else pure tt)

module _ ⦃host : Host⦄ ⦃tonic : Tonic⦄ (env : Environment) where
  -- The first message without a close opens a stream of messages.
  unfoldable pub open_bidi : Option Bytes → Action (Unit {0})
  unfolding plugin_metadata start_bidi_stream send_stream_message
  open_bidi message = take_metadata >>= λ send_metadata. plugin_metadata env >>= λ pairs.
      start_bidi_stream env send_metadata pairs >> send_if_some env message

  -- A close dispatches what was buffered.
  unfoldable pub dispatch_buffered : Action (Unit {0})
  unfolding start_server_stream
  dispatch_buffered = take_metadata >>= λ send_metadata.
      take_message >>= λ send_message. start_server_stream env send_metadata [] send_message

  unfoldable pub buffer : BatchOps → Action (Unit {0})
  unfolding plugin_metadata dispatch_buffered
  buffer batch =
      modify (λ c. record c {
        pending_metadata = batch.send_metadata;
        pending_message = batch.send_message;
      })
      >> plugin_metadata env
      >>= (λ pairs. modify (λ c. record c { pending_metadata = c.pending_metadata ++ pairs }))
      >> (if batch.send_close then dispatch_buffered else pure tt)

  -- Case 1: a batch that only sends.
  unfoldable pub send_only : BatchOps → Action ResultObject
  unfolding forward open_bidi buffer
  send_only batch = gets (λ c. is_some c.stream_state) >>= λ active.
      (if active
        then forward env batch.send_message batch.send_close
        else if not batch.send_close && is_some batch.send_message
        then open_bidi batch.send_message
        else buffer batch)
      >> pure []

  -- Case 2: the stream is active.
  unfoldable pub on_stream : BatchOps → Action ResultObject
  unfolding forward build_stream_result
  on_stream batch =
      forward env (if batch.has_send_ops then batch.send_message else none)
        (batch.has_send_ops && batch.send_close)
      >> build_stream_result env batch

  unfoldable pub unary : BatchOps → Pairs → Pairs → Option Bytes → Action ResultObject
  unfolding execute_call build_unary_result
  unary batch send_metadata pairs send_message =
      execute_call env send_metadata pairs send_message >>= λ result.
      pure
        (build_unary_result batch.recv_initial_metadata batch.recv_message batch.recv_status result)

  -- The metadata and the message of this batch, or those that were buffered.
  unfoldable pub resolve_metadata : BatchOps → Action Pairs
  resolve_metadata batch = if batch.has_send_ops then pure batch.send_metadata else take_metadata

  unfoldable pub resolve_message : BatchOps → Action (Option Bytes)
  resolve_message batch = if batch.has_send_ops then pure batch.send_message else take_message

  unfoldable pub resolve_plugin : BatchOps → Action Pairs
  unfolding plugin_metadata
  resolve_plugin batch = if batch.has_send_ops then plugin_metadata env else pure []

  -- Opens the stream of a call whose sending is over, and reads from it.
  unfoldable pub open_server_stream : BatchOps → Pairs → Pairs → Option Bytes → Action ResultObject
  unfolding start_server_stream build_stream_result recv_batch
  open_server_stream batch send_metadata pairs send_message =
      start_server_stream env send_metadata pairs send_message
      >> build_stream_result env (recv_batch batch)

  -- The unary pattern, server streaming, and the unary fallback.
  unfoldable pub choose : BatchOps → Pairs → Pairs → Option Bytes → Bool → Action ResultObject
  unfolding unary open_server_stream
  choose batch send_metadata pairs send_message send_closed =
      if batch.recv_message && batch.recv_status
      then unary batch send_metadata pairs send_message
      else if send_closed
      then open_server_stream batch send_metadata pairs send_message
      else unary batch send_metadata pairs send_message

  -- Case 3: no stream is active, and the batch reads.
  unfoldable pub first_read : BatchOps → Action ResultObject
  unfolding resolve_metadata resolve_message resolve_plugin choose
  first_read batch = resolve_metadata batch >>= λ send_metadata.
      resolve_message batch >>= λ send_message. resolve_plugin batch >>= λ pairs.
      gets (λ c. c.send_closed) >>= λ send_closed.
      choose batch send_metadata pairs send_message send_closed

  unfoldable pub dispatch_batch : BatchOps → Action ResultObject
  unfolding send_only on_stream first_read
  dispatch_batch batch = gets (λ c. is_some c.stream_state) >>= λ active.
      if batch.has_send_ops && not batch.has_recv_ops
      then send_only batch
      else if active
      then on_stream batch
      else first_read batch
