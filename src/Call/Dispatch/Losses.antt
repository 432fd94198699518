-- ===== src/Call/Dispatch/Losses.antt =====
-- What a batch loses on its way: metadata that a split batch does not send.
use grpc_php_rs.Common.{arith, ◌≡◌, true, false, none, some, ℕ}
use grpc_php_rs.Host.{Host, Bytes}
use grpc_php_rs.Error.{err, ok, default}
use grpc_php_rs.Metadata.Map.{Tonic}
use grpc_php_rs.Runtime.{pump}
use grpc_php_rs.Channel.Connectivity.{write_states}
use grpc_php_rs.Metadata.{Pairs}
use grpc_php_rs.Deadline.{deadline_already_expired}
use grpc_php_rs.Call.State.{CallState, Environment, ◌>>=◌, ◌>>◌}
use grpc_php_rs.Call.Batch.{BatchOps}
use grpc_php_rs.Call.Streaming.{expired_stream_state}
use grpc_php_rs.Call.Streaming.Sending.{start_bidi_stream, start_stream, send_stream_message}
use grpc_php_rs.Call.Dispatch.{
  [], send_only, open_bidi, take_metadata, dispatch_batch, plugin_metadata,
}

module _ ⦃host : Host⦄ ⦃tonic : Tonic⦄ (env : Environment) where
  -- The metadata of a batch that only sends, that sends a message and does not close, and that opens
  -- the stream, are not used: the outcome and everything that is sent are the same for any other
  -- metadata in their place.
  pub opening_batch_loses_metadata :
      (batch : BatchOps) (message : Bytes) (other : Pairs) (s : CallState)
      → s.call.stream_state ≡ none
      → batch.has_send_ops ≡ true
      → batch.has_recv_ops ≡ false
      → batch.send_message ≡ some message
      → batch.send_close ≡ false
      → dispatch_batch env batch s ≡ dispatch_batch env (record batch { send_metadata = other }) s
  unfolding dispatch_batch send_only ◌>>=◌
  opening_batch_loses_metadata batch message other s none_yet sends reads m open_still =
      ground arith

  expired_start :
      (message : Bytes) (md pm : Pairs) (rt : ℕ) (s : CallState)
      → env.runtime ≡ ok rt
      → deadline_already_expired s.call.deadline_usec env.now_dispatch ≡ true
      → start_bidi_stream env md pm s ≡ (
        ok tt,
        record s {
          call = record s.call { stream_state = some expired_stream_state };
          world = write_states env.pump_writes s.world;
        },
      )
  unfolding start_bidi_stream start_stream pump ◌>>=◌
  expired_start message md pm rt s e late = ground arith

  pub expired_open_throws :
      (message : Bytes) (rt : ℕ) (s : CallState)
      → env.runtime ≡ ok rt
      → s.call.call_plugin ≡ none
      → deadline_already_expired s.call.deadline_usec env.now_dispatch ≡ true
      → (open_bidi env (some message) s).0 ≡ err (default "stream does not support sending")
  unfolding open_bidi take_metadata plugin_metadata send_stream_message expired_stream_state ◌>>=◌
      ◌>>◌
  expired_open_throws message rt s e np late = ground (
    arith,
    expired_start message s.call.pending_metadata [] rt
        (record s { call = record s.call { pending_metadata = [] } }) e late,
  )
